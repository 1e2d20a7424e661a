-- ===== src/ThreadPool/Workers/Defs.antt =====
-- What holds of a thread pool between two steps.
use c_playground.Prelude.{
  ℕ, ◌+◌, ◌≤◌, ◌<◌, ◌≡◌, Bool, true, false, Option, none, some, List, total, ◌⊎◌,
}
use c_playground.ThreadPool.Store.{Task, Job, World}
use c_playground.ThreadPool.Chain.{Entry, Off}
use c_playground.ThreadPool.Queue.Laws.{IsQueue}
use c_playground.ThreadPool.Workers.{
  Pc, starting, woken, entering, pulling, calling, freeing, finishing, quitting, leaving, exited,
  Client, spinning, idle, test_len, test_working, asleep, signalled, unlocking, returned, checking,
  posting, cleaning, destroyed, Pool, Setup,
}

-- Counted in `num_threads_alive`.
abbrev pub registered : Pc → ℕ
registered starting = 0
registered leaving = 0
registered exited = 0
registered _ = 1

abbrev pub unborn : Pc → ℕ
unborn starting = 1
unborn _ = 0

-- Counted in `num_threads_working`.
abbrev pub busy : Pc → ℕ
busy pulling = 1
busy (calling _) = 1
busy (freeing _) = 1
busy finishing = 1
busy _ = 0

-- Holds `thcount_lock`.
abbrev pub holds : Pc → ℕ
holds leaving = 1
holds _ = 0

abbrev pub holds_client : Client → ℕ
holds_client test_len = 1
holds_client test_working = 1
holds_client unlocking = 1
holds_client _ = 0

-- Has passed `bsem_wait` and will pull.
abbrev pub eager : Pc → ℕ
eager woken = 1
eager entering = 1
eager pulling = 1
eager _ = 0

abbrev pub gone : Pc → ℕ
gone quitting = 1
gone leaving = 1
gone exited = 1
gone _ = 0

-- Has a job that is not called yet: its weight.
abbrev pub carried : (Task → ℕ) → Pc → ℕ
carried f (calling (some (a, task))) = f task
carried f _ = 0

-- Has a job: pulled, called or before its `free`.
abbrev pub running : Pc → ℕ
running (calling (some _)) = 1
running (freeing _) = 1
running _ = 0

-- The job that the worker owns.
abbrev pub owned : Pc → Option ℕ
owned (calling (some (a, _))) = some a
owned (freeing a) = some a
owned _ = none

-- An owned job is allocated and does not wait.
abbrev pub Held : (ℕ → Option Job) → List Entry → Option ℕ → Type 0
Held cells es none = Unit
Held cells es (some a) = (old : Job) × (cells a ≡ some old) × Off a es

-- What the client's place says of the flag and the counts.
abbrev pub ClientAt : Client → (keepalive : Bool) → (len working alive unborn jobs : ℕ) → Type 0
ClientAt spinning keep len work alive un jobs = keep ≡ true
ClientAt idle keep len work alive un jobs = (keep ≡ true) × (un ≡ 0)
ClientAt test_len keep len work alive un jobs = (keep ≡ true) × (un ≡ 0)
ClientAt signalled keep len work alive un jobs = (keep ≡ true) × (un ≡ 0)
ClientAt asleep keep len work alive un jobs = (keep ≡ true) × (un ≡ 0) × (0 < len + work)
ClientAt test_working keep len work alive un jobs =
    (keep ≡ true) × (un ≡ 0) × ((len ≡ 0) ⊎ (0 < work))
ClientAt unlocking keep len work alive un jobs = (keep ≡ true) × (un ≡ 0) × (len ≡ 0) × (jobs ≡ 0)
ClientAt returned keep len work alive un jobs = (keep ≡ true) × (un ≡ 0) × (len ≡ 0) × (jobs ≡ 0)
ClientAt checking keep len work alive un jobs = (keep ≡ false) × (un ≡ 0)
ClientAt posting keep len work alive un jobs = (keep ≡ false) × (un ≡ 0)
ClientAt cleaning keep len work alive un jobs = (keep ≡ false) × (un ≡ 0) × (alive ≡ 0)
ClientAt destroyed keep len work alive un jobs = (keep ≡ false) × (un ≡ 0) × (alive ≡ 0)

-- The queue is there until it is destroyed.
abbrev pub QueueAt : Client → List Entry → World → Type 0
QueueAt destroyed es q = Unit
QueueAt _ es q = IsQueue es q

pub record Inv (c : Setup) (m : Pool) (pc : ℕ → Pc) : Type 0 where
  pub asked : c.workers ≤ c.num_threads
  pub alive : m.num_threads_alive ≡ total registered c.workers pc
  pub working : m.num_threads_working ≡ total busy c.workers pc
  pub token : m.thcount_lock + total holds c.workers pc + holds_client m.client ≡ 1
  pub outside : (i : ℕ) → c.workers ≤ i → pc i ≡ starting
  pub es : List Entry
  pub queue : QueueAt m.client es m.queue
  pub held : (i : ℕ) → Held m.queue.cells es (owned (pc i))
  pub apart : (i j a : ℕ) → owned (pc i) ≡ some a → owned (pc j) ≡ some a → i ≡ j
  pub awake :
      m.threads_keepalive ≡ true
      → 0 < m.queue.len
      → (m.queue.bsem ≡ some 1) ⊎ (0 < total eager c.workers pc)
  pub staying : m.threads_keepalive ≡ true → total gone c.workers pc ≡ 0
  pub at :
      ClientAt m.client m.threads_keepalive m.queue.len m.num_threads_working m.num_threads_alive
        (total unborn c.workers pc)
        (total running c.workers pc)
