-- ===== src/Turns/Tests.antt =====
-- A run of producer_consumer.c with one number to generate and room for two.
use c_playground.Prelude.{ℕ, ◌≡◌, refl, none, some, List, [], ◌∷◌, arith}
use c_playground.Machine.{pos}
use c_playground.Turns.{Shared, start_state, fill, count_generated, produce_turn, consume_turn}
use c_playground.Turns.System.{
  testing, posting, test, lock, turn, System, by_producer, Reach, start, later,
}
use c_playground.Turns.Invariant.{IsAllocated}
use c_playground.Logger.{Log}
use c_playground.Getopt.{Call, Library}
use c_playground.Turns.Safety.{turns_in_bounds}

abbrev cells : List ℕ
cells = 9 ∷ 9 ∷ []

cells-IsAllocated : IsAllocated 1 2 cells
cells-IsAllocated = record { block = refl; wide = omega arith; ints = omega arith }

abbrev stored : Shared
stored = record {
  capacity = 2;
  size = 1;
  items = 7 ∷ 9 ∷ [];
  num_has_gen = 1;
  num_has_read = 0;
  total_gen_num = pos 0;
  mutex = 0;
}

-- The producer has stored its number and has not posted yet.
abbrev in_turn : System
in_turn = record { mem = stored; producer = posting; consumer = testing }

one_stored : Reach 1 2 cells in_turn
unfolding start_state produce_turn fill count_generated
one_stored =
    later (later (later start (by_producer test)) (by_producer (lock (omega arith))))
      (by_producer (turn 1 (λ _. 7) refl))

turns_in_bounds_example :
    ((t : Shared) × (produce_turn 4 (λ _. 3) stored ≡ some t))
    × ((t : Shared) × (consume_turn stored ≡ some t))
turns_in_bounds_example = turns_in_bounds cells-IsAllocated one_stored 4 (λ _. 3)

abbrev library : Library
library = record { strdup = λ t. some t; atoi = λ t. pos 4; fopen = λ t. some 9 }

-- `--size 4 -L log`
abbrev calls : List Call
calls =
    record { opt = 115; optarg = some (52 ∷ []) } ∷ record { opt = 76; optarg = some (7 ∷ []) } ∷ []

abbrev log : Log
log = record { default_log_stream = none; default_log_level = pos 0; lines = [] }
