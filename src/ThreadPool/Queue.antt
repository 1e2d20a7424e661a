-- ===== src/ThreadPool/Queue.antt =====
-- common/thpool.c: `jobqueue_init`, `jobqueue_push`, `jobqueue_pull`, `jobqueue_clear`,
-- `jobqueue_destroy`, each whole between the lock and the unlock of `rw_mutex`; `thpool_add_work`.
pub mod Laws
pub mod Clearing
pub mod Taking
pub mod Fifo
mod Tests
use c_playground.Prelude.{
  ℕ, zero, suc, ◌+◌, ◌-◌, ◌≡◌, Bool, true, false, Option, none, some, ◌==◌, if◌then◌else◌, update,
}
use c_playground.Machine.{ℤ, pos, negsuc}
use c_playground.ThreadPool.Store.{
  Task, Job, World, Result, ok, undefined, out_of_fuel, Cmd, pure, run_then, ◌>>=◌, ◌>>◌, load,
  store_prev, free, len_incr, bsem_init, bsem_reset, bsem_post,
}

abbrev set_ends : (front rear : Option ℕ) → Cmd (Unit {0})
set_ends front rear w = ok (tt, record w { front = front; rear = rear })

abbrev link_rear : ℕ → World → Result (Unit {0} × World)
link_rear job w = (do store_prev w.rear (some job); set_ends w.front (some job)) w

-- The switch of `jobqueue_push`.
unfoldable pub link : (job : ℕ) → Cmd (Unit {0})
link job w = if w.len == 0 then set_ends (some job) (some job) w else link_rear job w

-- `jobqueue_push`
unfoldable pub push : (job : ℕ) → Cmd (Unit {0})
unfolding link bsem_post
push job = do store_prev (some job) none; link job; len_incr; bsem_post

-- `front = job->prev; len--; bsem_post`
abbrev advance : Cmd (Unit {0})
advance = do
  λ w. run_then (load w.front w) λ job w'. ok (tt, record w' { front = job.prev; len = w'.len - 1 })
  bsem_post

-- The switch of `jobqueue_pull`.
unfoldable pub unlink : (len : ℕ) → Cmd (Unit {0})
unfolding bsem_post
unlink zero w = ok (tt, w)
unlink (suc zero) w = ok (tt, record w { front = none; rear = none; len = 0 })
unlink (suc (suc n)) w = advance w

-- `jobqueue_pull`
unfoldable pub pull : Cmd (Option ℕ)
unfolding unlink
pull w = run_then (unlink w.len w) λ _ w'. ok (w.front, w')

-- The loop of `jobqueue_clear`.
pub drain : (fuel : ℕ) → Cmd (Unit {0})
unfolding pull
drain zero w = if w.len == 0 then ok (tt, w) else out_of_fuel
drain (suc fuel) w =
    let rest = λ (job : Option ℕ). (do free job; drain fuel) in
    if w.len == 0 then ok (tt, w) else (pull >>= rest) w

-- `jobqueue_clear`, whose loop runs `len` times.
pub clear : Cmd (Unit {0})
unfolding drain bsem_reset
clear = do λ w. drain w.len w; set_ends none none; bsem_reset; λ w. ok (tt, record w { len = 0 })

-- `jobqueue_destroy`
unfoldable pub destroy_queue : Cmd (Unit {0})
unfolding clear
destroy_queue = do clear; λ w. ok (tt, record w { bsem = none; initialized = false })

-- `jobqueue_init`, with whether the semaphore could be allocated; its `v` is indeterminate until
-- `bsem_init`.
unfoldable pub init_queue : (granted : Bool) (v : ℕ) → Cmd ℤ
unfolding bsem_init
init_queue false v w =
    ok (negsuc 0, record w { len = 0; front = none; rear = none; bsem = none; initialized = false })
init_queue true v w =
    (do bsem_init (pos 0); pure (pos 0))
      (record w { len = 0; front = none; rear = none; bsem = some v; initialized = false })

-- `thpool_add_work`, with the address that `malloc` returns and what lies there.
unfoldable pub add_work : (malloc : Option ℕ) → (garbage : Option ℕ) → Task → Cmd ℤ
unfolding push
add_work none garbage task w = ok (negsuc 0, w)
add_work (some job) garbage task w =
    (do push job; pure (pos 0))
      (record w { cells = update w.cells job (some (record { prev = garbage; task = task })) })

-- What `run_job` does with the pointer it pulled.
unfoldable pub run_pulled : Option ℕ → Cmd (Option Task)
run_pulled none = pure none
run_pulled (some a) = do job ← load (some a); free (some a); pure (some job.task)

-- The part of `thread_do` from `jobqueue_pull` to `free(job)`, with the task that is called.
pub run_job : Cmd (Option Task)
unfolding pull run_pulled
run_job = do job ← pull; run_pulled job

abbrev read_job : Option ℕ → Cmd (Option (ℕ × Task))
read_job none = pure none
read_job (some a) = do job ← load (some a); pure (some (a, job.task))

-- `jobqueue_pull` and the two reads of the job behind it, as one piece of `thread_do`.
unfoldable pub pull_job : Cmd (Option (ℕ × Task))
unfolding pull
pull_job = do job ← pull; read_job job
