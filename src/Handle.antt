-- ===== src/Handle.antt =====
-- common/thpool_test.c: jobs of a thread pool that count one number up to a limit, with no lock. The log
-- is left out. Reads and writes of the number are single steps that the threads make in any order.
pub mod Laws
mod Tests
use c_playground.Prelude.{ℕ, ◌+◌, ◌<◌, ◌≤◌, ◌^◌, update}

-- Where a call of `increment` stands; between the two halves of `handle->number++` it holds what it read.
pub data Pc : Type 0 where
  pending : Pc  -- in the queue of the pool
  testing : Pc  -- `if (handle->number < handle->limit)`
  reading : Pc
  writing : ℕ → Pc
  returned : Pc

-- `handle_t`
pub record Handle : Type 0 where
  pub number : ℕ
  pub limit : ℕ

pub data Move (h : Handle) : Pc → Handle → Pc → Type 0 where
  begin : Move h pending h testing
  below : h.number < h.limit → Move h testing h reading
  reached : h.limit ≤ h.number → Move h testing h returned
  read : Move h reading h (writing h.number)
  -- Where the number would overflow there is no step.
  write : (v : ℕ) → v + 1 < 2 ^ 31 → Move h (writing v) (record h { number = v + 1 }) testing

pub record System : Type 0 where
  pub handle : Handle
  pub pc : ℕ → Pc

-- The steps of `n` jobs.
pub data Step (n : ℕ) (s : System) : System → Type 0 where
  move :
      (i : ℕ) {h : Handle} {p : Pc}
      → i < n
      → Move s.handle (s.pc i) h p
      → Step n s (record { handle = h; pc = update s.pc i p })

-- What `main` submits: all jobs get the one handle.
abbrev pub init : (number limit : ℕ) → System
init number limit = record { handle = record { number = number; limit = limit }; pc = λ i. pending }

-- Reached by `n` jobs.
pub data Reach (n number limit : ℕ) : System → Type 0 where
  start : Reach n number limit (init number limit)
  later : {s s' : System} → Reach n number limit s → Step n s s' → Reach n number limit s'
