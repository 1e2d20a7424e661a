-- ===== src/Producers/System.antt =====
-- The threads of multiple_producer_consumer.c over one buffer, interleaved in any order.
use mathlib.Core.Logic.{ite}
use c_playground.Prelude.{
  ℕ, ◌+◌, ◌-◌, ◌<◌, ◌≡◌, Bool, true, false, Option, none, some, List, [], ◌∷◌, dec_lt, update,
}
use c_playground.Producers.{Buffer, Outcome, produce_body, consume_body, all_done}

pub data Role : Type 0 where
  producer : Role
  consumer : Role

-- Where a thread stands. A producer or consumer waits for a slot (`empty` or `full`), then for the
-- mutex, runs its body, and posts the mutex and the other slot semaphore.
pub data Pc : Type 0 where
  outside : Role → Pc
  holding : Role → Pc
  inside : Role → Pc
  unlocking : Role → (leaves : Bool) → Pc
  posting : Role → (leaves : Bool) → Pc
  finished : Role → Pc
  watching : Pc  -- `main`, before `sem_wait(&buffer->mutex)`
  checking : Pc
  releasing : (leaves : Bool) → Pc
  returned : Pc  -- `main` is out of its loop

-- After the last post: `break`, or the head of the loop.
abbrev pub next_round : Role → Bool → Pc
next_round r true = finished r
next_round r false = outside r

abbrev pub next_watch : Bool → Pc
next_watch true = returned
next_watch false = watching

-- One step of one thread, with the number it moves into or out of the buffer.
pub data Move (max_generate : ℕ) (b : Buffer) : Pc → Buffer → Pc → Option ℕ → Type 0 where
  wait_empty :
      0 < b.empty
      → Move max_generate b
          (outside producer)
          (record b { empty = b.empty - 1 })
          (holding producer)
          none
  wait_full :
      0 < b.full
      → Move max_generate b
          (outside consumer)
          (record b { full = b.full - 1 })
          (holding consumer)
          none
  lock :
      (r : Role)
      → 0 < b.mutex
      → Move max_generate b (holding r) (record b { mutex = b.mutex - 1 }) (inside r) none
  produce :
      (rand : ℕ) {o : Outcome}
      → produce_body max_generate rand b ≡ some o
      → Move max_generate b (inside producer) o.buffer (unlocking producer o.leaves) o.moved
  consume :
      {o : Outcome}
      → consume_body max_generate b ≡ some o
      → Move max_generate b (inside consumer) o.buffer (unlocking consumer o.leaves) o.moved
  unlock :
      (r : Role) (leaves : Bool)
      → Move max_generate b
          (unlocking r leaves)
          (record b { mutex = b.mutex + 1 })
          (posting r leaves)
          none
  post_full :
      (leaves : Bool)
      → Move max_generate b
          (posting producer leaves)
          (record b { full = b.full + 1 })
          (next_round producer leaves)
          none
  post_empty :
      (leaves : Bool)
      → Move max_generate b
          (posting consumer leaves)
          (record b { empty = b.empty + 1 })
          (next_round consumer leaves)
          none
  watch :
      0 < b.mutex → Move max_generate b watching (record b { mutex = b.mutex - 1 }) checking none
  check : Move max_generate b checking b (releasing (all_done max_generate b)) none
  release :
      (leaves : Bool)
      → Move max_generate b
          (releasing leaves)
          (record b { mutex = b.mutex + 1 })
          (next_watch leaves)
          none

-- What is fixed by the command line: the counts of threads, the capacity and `max_generate`.
pub record Setup : Type 0 where
  pub producers : ℕ
  pub consumers : ℕ
  pub capacity : ℕ
  pub max_generate : ℕ

-- the producers, the consumers, and `main`
abbrev pub threads : Setup → ℕ
threads c = c.producers + c.consumers + 1

-- A producer's number goes into the first log, a consumer's into the second.
abbrev pub log_in : Pc → Option ℕ → List ℕ → List ℕ
log_in (inside producer) (some number) log = number ∷ log
log_in _ _ log = log

abbrev pub log_out : Pc → Option ℕ → List ℕ → List ℕ
log_out (inside consumer) (some number) log = number ∷ log
log_out _ _ log = log

-- The buffer and the threads. The two logs are no part of the program: they record what every
-- `produce_item` and `consume_item` has moved so far.
pub record System : Type 0 where
  pub mem : Buffer
  pub pc : ℕ → Pc
  pub produced : List ℕ
  pub consumed : List ℕ

pub data Step (c : Setup) (s : System) : System → Type 0 where
  pick :
      (i : ℕ) {b : Buffer} {p : Pc} {moved : Option ℕ}
      → i < threads c
      → Move c.max_generate s.mem (s.pc i) b p moved
      → Step c s (record {
        mem = b;
        pc = update s.pc i p;
        produced = log_in (s.pc i) moved s.produced;
        consumed = log_out (s.pc i) moved s.consumed;
      })

-- `threads_create` twice, and `main` itself behind the threads.
abbrev pub first_pc : Setup → ℕ → Pc
first_pc c i =
    ite (dec_lt i c.producers) (outside producer)
      (ite (dec_lt i (c.producers + c.consumers)) (outside consumer) watching)

abbrev pub init : Setup → Buffer → System
init c b = record { mem = b; pc = first_pc c; produced = []; consumed = [] }

pub data Reach (c : Setup) (b : Buffer) : System → Type 0 where
  start : Reach c b (init c b)
  later : {s t : System} → Reach c b s → Step c s t → Reach c b t
