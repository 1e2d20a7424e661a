-- ===== src/ThreadPool/Workers.antt =====
-- common/thpool.c: the workers (`thread_do`), the client's calls of a pool, and all interleavings.
pub mod Defs
pub mod Moves
pub mod Owned
pub mod Kept
pub mod Jobs
pub mod Invariant
pub mod Places
pub mod Calls
pub mod Weights
pub mod Tally
pub mod Moving
pub mod Sleepers
pub mod Service
pub mod Draining
pub mod Waking
mod Tests
use mathlib.Core.Path.{◌≡◌}
use c_playground.Prelude.{
  ℕ, ◌+◌, ◌-◌, ◌^◌, ◌<◌, Bool, true, false, Option, none, some, List, [], ◌∷◌, ◌==◌, if◌then◌else◌,
  update,
}
use c_playground.Machine.{ℤ, pos, negsuc}
use c_playground.ThreadPool.Store.{
  Task, Job, World, Result, ok, free, bsem_wait, bsem_sleep, bsem_wake, bsem_post_all,
}
use c_playground.ThreadPool.Chain.{Entry}
use c_playground.ThreadPool.Queue.{add_work, pull_job, destroy_queue}

-- Where a worker stands in `thread_do`.
pub data Pc : Type 0 where
  starting : Pc  -- before `num_threads_alive += 1`
  testing : Pc  -- `while (threads_keepalive)`
  waiting : Pc  -- in `bsem_wait`, before the test of its loop
  dozing : Pc  -- in the `pthread_cond_wait` of `bsem_wait`
  woken : Pc  -- `if (threads_keepalive)`
  entering : Pc  -- before `num_threads_working++`
  pulling : Pc
  calling : Option Entry → Pc  -- with the job that was pulled, if any
  freeing : (job : ℕ) → Pc  -- in the job's function, or before `free(job)`
  finishing : Pc  -- before `num_threads_working--`
  quitting : Pc  -- before `num_threads_alive--`
  leaving : Pc  -- before the last unlock of `thcount_lock`
  exited : Pc

-- Where the thread stands that made the pool and calls its functions.
pub data Client : Type 0 where
  spinning : Client  -- the last loop of `thpool_init`
  idle : Client
  test_len : Client  -- in `thpool_wait`, with `thcount_lock`
  test_working : Client
  asleep : Client  -- in `pthread_cond_wait`
  signalled : Client
  unlocking : Client
  returned : Client  -- `thpool_wait` has returned, and nothing was called since
  checking : Client  -- the loops of `thpool_destroy`
  posting : Client
  cleaning : Client  -- behind the loops
  destroyed : Client

-- `thpool_t` with its queue, `threads_keepalive`, and `thcount_lock` (1 when free). The two lists are
-- no part of the program: they record the tasks that were accepted and those that were called.
pub record Pool : Type 0 where
  pub queue : World
  pub num_threads_alive : ℕ
  pub num_threads_working : ℕ
  pub threads_keepalive : Bool
  pub thcount_lock : ℕ
  pub client : Client
  pub submitted : List Task
  pub called : List Task

-- `pthread_cond_signal(&threads_all_idle)`
abbrev pub signal : Client → Client
signal asleep = signalled
signal c = c

-- `num_threads_working--`, and the signal when none works.
abbrev pub job_done : Pool → Pool
job_done m = record m {
  num_threads_working = m.num_threads_working - 1;
  client = if (m.num_threads_working - 1) == 0 then signal m.client else m.client;
}

abbrev pub note : ℤ → Task → List Task → List Task
note (pos _) task tasks = task ∷ tasks
note (negsuc _) task tasks = tasks

-- `malloc` returns NULL or an address where nothing is allocated.
abbrev pub IsFresh : Option ℕ → (ℕ → Option Job) → Type 0
IsFresh none cells = Unit
IsFresh (some a) cells = cells a ≡ none

-- One step of `thread_do`. A section under `thcount_lock` is one step, but for the last one.
pub data Work (m : Pool) : Pc → Pool → Pc → Type 0 where
  register :
      m.thcount_lock ≡ 1
      → Work m starting (record m { num_threads_alive = m.num_threads_alive + 1 }) testing
  test : m.threads_keepalive ≡ true → Work m testing m waiting
  test_off : m.threads_keepalive ≡ false → Work m testing m quitting
  take : {q : World} → bsem_wait m.queue ≡ some q → Work m waiting (record m { queue = q }) woken
  doze : {q : World} → bsem_sleep m.queue ≡ some q → Work m waiting (record m { queue = q }) dozing
  rouse :
      (early : Bool) {q : World}
      → bsem_wake early m.queue ≡ some q
      → Work m dozing (record m { queue = q }) waiting
  retest : m.threads_keepalive ≡ true → Work m woken m entering
  retest_off : m.threads_keepalive ≡ false → Work m woken m testing
  enter :
      m.thcount_lock ≡ 1
      → Work m entering (record m { num_threads_working = m.num_threads_working + 1 }) pulling
  pull_next :
      (a : ℕ) (task : Task) {q : World}
      → pull_job m.queue ≡ ok (some (a, task), q)
      → Work m pulling (record m { queue = q }) (calling (some (a, task)))
  pull_none :
      {q : World}
      → pull_job m.queue ≡ ok (none, q)
      → Work m pulling (record m { queue = q }) (calling none)
  call :
      (a : ℕ) (task : Task)
      → Work m (calling (some (a, task))) (record m { called = task ∷ m.called }) (freeing a)
  -- The job's function calls `thpool_add_work`.
  add_more :
      (a : ℕ) (malloc garbage : Option ℕ) (task : Task) {code : ℤ} {q : World}
      → IsFresh malloc m.queue.cells
      → m.queue.len + 1 < 2 ^ 31
      → add_work malloc garbage task m.queue ≡ ok (code, q)
      → Work m
          (freeing a)
          (record m { queue = q; submitted = note code task m.submitted })
          (freeing a)
  skip : Work m (calling none) m finishing
  free_job :
      (a : ℕ) {q : World}
      → free (some a) m.queue ≡ ok (tt, q)
      → Work m (freeing a) (record m { queue = q }) finishing
  finish : m.thcount_lock ≡ 1 → Work m finishing (job_done m) testing
  quit :
      m.thcount_lock ≡ 1
      → Work m quitting
          (record m { num_threads_alive = m.num_threads_alive - 1; thcount_lock = 0 })
          leaving
  leave : Work m leaving (record m { thcount_lock = 1 }) exited

-- Between two calls the client may make another one.
abbrev pub may_call : Client → Bool
may_call idle = true
may_call returned = true
may_call _ = false

-- One step of the client.
pub data Act (num_threads : ℕ) (m : Pool) : Pool → Type 0 where
  ready :
      m.client ≡ spinning
      → m.num_threads_alive ≡ num_threads
      → Act num_threads m (record m { client = idle })
  submit :
      (malloc garbage : Option ℕ) (task : Task) {code : ℤ} {q : World}
      → may_call m.client ≡ true
      → IsFresh malloc m.queue.cells
      → m.queue.len + 1 < 2 ^ 31
      → add_work malloc garbage task m.queue ≡ ok (code, q)
      → Act num_threads m
          (record m { queue = q; client = idle; submitted = note code task m.submitted })
  lock :
      may_call m.client ≡ true
      → m.thcount_lock ≡ 1
      → Act num_threads m (record m { thcount_lock = 0; client = test_len })
  see_len :
      m.client ≡ test_len → m.queue.len ≡ 0 → Act num_threads m (record m { client = test_working })
  jobs_wait :
      m.client ≡ test_len
      → 0 < m.queue.len
      → Act num_threads m (record m { thcount_lock = 1; client = asleep })
  see_working :
      m.client ≡ test_working
      → m.num_threads_working ≡ 0
      → Act num_threads m (record m { client = unlocking })
  jobs_run :
      m.client ≡ test_working
      → 0 < m.num_threads_working
      → Act num_threads m (record m { thcount_lock = 1; client = asleep })
  wake :
      m.client ≡ signalled
      → m.thcount_lock ≡ 1
      → Act num_threads m (record m { thcount_lock = 0; client = test_len })
  spurious : m.client ≡ asleep → Act num_threads m (record m { client = signalled })
  unlock :
      m.client ≡ unlocking → Act num_threads m (record m { thcount_lock = 1; client = returned })
  stop :
      may_call m.client ≡ true
      → Act num_threads m (record m { threads_keepalive = false; client = checking })
  check_dead :
      m.client ≡ checking
      → m.num_threads_alive ≡ 0
      → Act num_threads m (record m { client = cleaning })
  check_alive :
      m.client ≡ checking
      → 0 < m.num_threads_alive
      → Act num_threads m (record m { client = posting })
  post_all :
      {q : World}
      → m.client ≡ posting
      → bsem_post_all m.queue ≡ ok (tt, q)
      → Act num_threads m (record m { queue = q; client = checking })
  clean :
      {q : World}
      → m.client ≡ cleaning
      → destroy_queue m.queue ≡ ok (tt, q)
      → Act num_threads m (record m { queue = q; client = destroyed })

-- `num_threads` as asked for, and the workers that were really created.
pub record Setup : Type 0 where
  pub num_threads : ℕ
  pub workers : ℕ

pub record System : Type 0 where
  pub pool : Pool
  pub pc : ℕ → Pc

pub data Step (c : Setup) (s : System) : System → Type 0 where
  by_worker :
      (i : ℕ) {m : Pool} {p : Pc}
      → i < c.workers
      → Work s.pool (s.pc i) m p
      → Step c s (record { pool = m; pc = update s.pc i p })
  by_client : {m : Pool} → Act c.num_threads s.pool m → Step c s (record s { pool = m })

-- `thpool_init` behind its loop over `thread_init`, on the queue that `jobqueue_init` made.
abbrev pub init : World → System
init queue = record {
  pool = record {
    queue = queue;
    num_threads_alive = 0;
    num_threads_working = 0;
    threads_keepalive = true;
    thcount_lock = 1;
    client = spinning;
    submitted = [];
    called = [];
  };
  pc = λ _. starting;
}

pub data Reach (c : Setup) (queue : World) : System → Type 0 where
  start : Reach c queue (init queue)
  later : {s t : System} → Reach c queue s → Step c s t → Reach c queue t
