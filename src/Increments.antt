-- ===== src/Increments.antt =====
-- Miscs/mutex_example.c and Miscs/pthread_join_example.c: `main` starts threads that each add 1 to a counter
-- under a mutex, and joins them. The output is left out, and `pthread_create` succeeds.
pub mod Laws
mod Tests
use c_playground.Prelude.{ℕ, suc, ◌+◌, ◌<◌, ◌≡◌, update}

-- Where `incrementCounter` (or `thread_func`) stands; a thread that reads the counter holds its value.
pub data Pc : Type 0 where
  unborn : Pc
  locking : Pc
  reading : Pc
  writing : ℕ → Pc
  unlocking : Pc
  exited : Pc

-- `counter`, and the mutex (1 when free).
pub record Shared : Type 0 where
  pub counter : ℕ
  pub mutex : ℕ

-- `counter++` is a read and a write.
pub data Move (m : Shared) : Pc → Shared → Pc → Type 0 where
  lock : m.mutex ≡ 1 → Move m locking (record m { mutex = 0 }) reading
  read : Move m reading m (writing m.counter)
  write : (v : ℕ) → Move m (writing v) (record m { counter = v + 1 }) unlocking
  unlock : Move m unlocking (record m { mutex = 1 }) exited

-- `main` creates the thread with this number next, or joins it next.
pub data Main : Type 0 where
  creates : ℕ → Main
  joins : ℕ → Main

pub record System : Type 0 where
  pub shared : Shared
  pub pc : ℕ → Pc
  pub main : Main

-- The steps with `n` threads.
pub data Step (n : ℕ) (s : System) : System → Type 0 where
  move :
      (i : ℕ) {m : Shared} {p : Pc}
      → i < n
      → Move s.shared (s.pc i) m p
      → Step n s (record s { shared = m; pc = update s.pc i p })
  create :
      (k : ℕ)
      → s.main ≡ creates k
      → k < n
      → Step n s (record s { pc = update s.pc k locking; main = creates (suc k) })
  all_created : s.main ≡ creates n → Step n s (record s { main = joins 0 })
  join :
      (k : ℕ)
      → s.main ≡ joins k
      → k < n
      → s.pc k ≡ exited
      → Step n s (record s { main = joins (suc k) })

abbrev pub init : System
init = record { shared = record { counter = 0; mutex = 1 }; pc = λ i. unborn; main = creates 0 }

pub data Reach (n : ℕ) : System → Type 0 where
  start : Reach n init
  later : {s t : System} → Reach n s → Step n s t → Reach n t

-- The threads of pthread_join_example.c; mutex_example.c has two.
abbrev pub n_threads : ℕ
n_threads = 10
