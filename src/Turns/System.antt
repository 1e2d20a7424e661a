-- ===== src/Turns/System.antt =====
-- The two threads of producer_consumer.c in any interleaving.
use c_playground.Prelude.{ℕ, ◌+◌, ◌-◌, ◌<◌, ◌≡◌, Bool, true, false, some, List, ◌==◌}
use c_playground.Machine.{pos, ltb_ℤ}
use c_playground.Turns.{Shared, start_state, produce_turn, consume_turn}

-- Where a thread stands: at the test of its `while`, before `sem_wait`, before its turn, before
-- `sem_post`, or after `pthread_exit`.
pub data Pc : Type 0 where
  testing : Pc
  waiting : Pc
  inside : Pc
  posting : Pc
  exited : Pc

abbrev pub next_round : (goes_on : Bool) → Pc
next_round true = waiting
next_round false = exited

-- `producer_stuff`. The `continue` posts and tests like the end of the loop.
pub data Produce (s : Shared) : Pc → Shared → Pc → Type 0 where
  test : Produce s testing s (next_round (ltb_ℤ (pos 0) s.total_gen_num))
  lock : 0 < s.mutex → Produce s waiting (record s { mutex = s.mutex - 1 }) inside
  turn :
      (rand : ℕ) (contents : ℕ → ℕ) {t : Shared}
      → produce_turn rand contents s ≡ some t
      → Produce s inside t posting
  post : Produce s posting (record s { mutex = s.mutex + 1 }) testing

abbrev pub negate : Bool → Bool
negate true = false
negate false = true

-- `consumer_stuff`
pub data Consume (num_gen : ℕ) (s : Shared) : Pc → Shared → Pc → Type 0 where
  read_test : Consume num_gen s testing s (next_round (negate (s.num_has_read == num_gen)))
  read_lock : 0 < s.mutex → Consume num_gen s waiting (record s { mutex = s.mutex - 1 }) inside
  read_turn : {t : Shared} → consume_turn s ≡ some t → Consume num_gen s inside t posting
  read_post : Consume num_gen s posting (record s { mutex = s.mutex + 1 }) testing

pub record System : Type 0 where
  pub mem : Shared
  pub producer : Pc
  pub consumer : Pc

pub data Step (num_gen : ℕ) (s : System) : System → Type 0 where
  by_producer :
      {t : Shared} {p : Pc}
      → Produce s.mem s.producer t p
      → Step num_gen s (record s { mem = t; producer = p })
  by_consumer :
      {t : Shared} {p : Pc}
      → Consume num_gen s.mem s.consumer t p
      → Step num_gen s (record s { mem = t; consumer = p })

-- After the second `pthread_create` of `main`.
abbrev pub init : (num_gen buffer_capacity : ℕ) (cells : List ℕ) → System
init num_gen buffer_capacity cells = record {
  mem = start_state num_gen buffer_capacity cells;
  producer = testing;
  consumer = testing;
}

pub data Reach (num_gen buffer_capacity : ℕ) (cells : List ℕ) : System → Type 0 where
  start : Reach num_gen buffer_capacity cells (init num_gen buffer_capacity cells)
  later :
      {s t : System}
      → Reach num_gen buffer_capacity cells s
      → Step num_gen s t
      → Reach num_gen buffer_capacity cells t
