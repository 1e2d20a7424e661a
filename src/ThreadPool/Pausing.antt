-- ===== src/ThreadPool/Pausing.antt =====
-- common/thpool.c: `thpool_pause`, `thpool_resume`, `thpool_num_threads_working` and the handler
-- `thread_hold` of SIGUSR1, around the pool of `Workers`.
use c_playground.Prelude.{ℕ, ◌<◌, ◌≡◌, Bool, true, false, if◌then◌else◌, ltb, update}
use c_playground.ThreadPool.Store.{World}
use c_playground.ThreadPool.Workers.{Pc, Pool, Setup, System, Work, Act, may_call, init}

-- A pool with the global `threads_on_hold`. `pending` says to which workers SIGUSR1 was sent and has
-- not been delivered yet, `held` which of them are in `thread_hold`.
pub record Paused : Type 0 where
  pub system : System
  pub threads_on_hold : Bool
  pub pending : ℕ → Bool
  pub held : ℕ → Bool

-- `thpool_num_threads_working`
abbrev pub num_threads_working : Paused → ℕ
num_threads_working s = s.system.pool.num_threads_working

-- `thpool_pause`: `pthread_kill` for each `n` below `num_threads_alive`.
unfoldable pub pause : Paused → Paused
pause s = record s {
  pending = λ n. if ltb n s.system.pool.num_threads_alive then true else s.pending n;
}

-- `thpool_resume`
abbrev pub resume : Paused → Paused
resume s = record s { threads_on_hold = false }

-- `thread_hold` up to its loop.
abbrev pub begin_hold : ℕ → Paused → Paused
begin_hold i s = record s {
  threads_on_hold = true;
  pending = update s.pending i false;
  held = update s.held i true;
}

-- A worker is held between two of its steps; a signal that arrives during the handler waits.
pub data Step (c : Setup) (s : Paused) : Paused → Type 0 where
  work :
      (i : ℕ) {m : Pool} {p : Pc}
      → i < c.workers
      → s.held i ≡ false
      → Work s.system.pool (s.system.pc i) m p
      → Step c s (record s { system = record { pool = m; pc = update s.system.pc i p } })
  act :
      {m : Pool}
      → Act c.num_threads s.system.pool m
      → Step c s (record s { system = record s.system { pool = m } })
  call_pause : may_call s.system.pool.client ≡ true → Step c s (pause s)
  call_resume : may_call s.system.pool.client ≡ true → Step c s (resume s)
  arrive :
      (i : ℕ) → i < c.workers → s.pending i ≡ true → s.held i ≡ false → Step c s (begin_hold i s)
  go_on :
      (i : ℕ)
      → s.held i ≡ true
      → s.threads_on_hold ≡ false
      → Step c s (record s { held = update s.held i false })

-- `threads_on_hold = 0` in `thpool_init`.
abbrev pub begin : World → Paused
begin queue = record {
  system = init queue;
  threads_on_hold = false;
  pending = λ _. false;
  held = λ _. false;
}

pub data Reach (c : Setup) (queue : World) : Paused → Type 0 where
  start : Reach c queue (begin queue)
  later : {s t : Paused} → Reach c queue s → Step c s t → Reach c queue t
