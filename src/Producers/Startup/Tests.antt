-- ===== src/Producers/Startup/Tests.antt =====
-- Starts of multiple_producer_consumer.c with one producer, one consumer and one slot.
use c_playground.Prelude.{ℕ, ◌≡◌, refl, true, some, List, [], ◌∷◌, length}
use c_playground.Machine.{pos}
use c_playground.Getopt.{Text, Library}
use c_playground.Producers.{buffer_create}
use c_playground.Producers.Tests.{one_each, one_slot, all_out, all_out-ends}
use c_playground.Producers.Startup.{
  Calls, Grants, waits, accept, start_threads, with_buffer, run_main,
}
use c_playground.Producers.Startup.Laws.{IsStarted, run_main-IsStarted, main_exits_done}

-- Every number is 1.
abbrev library : Library
library = record { strdup = λ t. some t; atoi = λ t. pos 1; fopen = λ t. some 9 }

abbrev every_call : ℕ → Calls
every_call i = record { malloc = true; create = true; detach = true }

abbrev all_granted : Grants
all_granted = record {
  handle = true;
  memory = some (55 ∷ []);
  producers = true;
  consumers = true;
  producer_calls = every_call;
  consumer_calls = every_call;
}

abbrev number : Text
number = 49 ∷ []

abbrev argv : List Text
argv = [] ∷ [] ∷ number ∷ number ∷ number ∷ number ∷ []

all_start : run_main library all_granted argv ≡ waits one_each one_slot
unfolding run_main accept with_buffer start_threads buffer_create
all_start = refl

one_cell : (cells : List ℕ) → some (55 ∷ []) ≡ some cells → pos 1 ≡ pos (length cells)
one_cell cells e = let same : 55 ∷ [] ≡ cells = cc in rw (← same) refl

run_main-IsStarted_example : IsStarted all_granted (pos 1) (pos 1) (pos 1) (pos 1) one_each one_slot
run_main-IsStarted_example =
    run_main-IsStarted library all_granted [] [] number number number number (λ t. refl) one_cell
      all_start

main_exits_done_example :
    (pos 1 ≡ pos all_out.last.mem.num_gen)
    × (pos 1 ≡ pos all_out.last.mem.num_con)
    × (all_out.last.mem.size ≡ 0)
main_exits_done_example =
    main_exits_done library all_granted [] [] number number number number (λ t. refl) one_cell
      all_start all_out.reach 2 all_out-ends.0
