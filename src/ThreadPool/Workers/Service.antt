-- ===== src/ThreadPool/Workers/Service.antt =====
-- What the users of a thread pool of common/thpool.c rely on, in every interleaving.
use c_playground.Prelude.{
  ℕ, ◌+◌, ◌<◌, ◌≡◌, ◌≢◌, ap, List, arith, total, total-const_zero, le-total, ◌⊎◌, dec_lt,
}
use c_playground.ThreadPool.Store.{Task, World, undefined}
use c_playground.ThreadPool.Chain.{Entry}
use c_playground.ThreadPool.Queue.{drain, destroy_queue}
use c_playground.ThreadPool.Queue.Clearing.{Emptied, clear-Drained}
use c_playground.ThreadPool.Queue.Laws.{IsQueue}
use c_playground.ThreadPool.Workers.{
  leaving, exited, spinning, returned, cleaning, destroyed, Setup, System, Reach,
}
use c_playground.ThreadPool.Workers.Defs.{
  registered, unborn, busy, holds, holds_client, carried, running,
}
use c_playground.ThreadPool.Workers.Owned.{QueueAt-live}
use c_playground.ThreadPool.Workers.Calls.{IsMade, Reach-Inv, at_client, queue_client}
use c_playground.ThreadPool.Workers.Tally.{Reach-Tally}
use c_playground.ThreadPool.Workers.Weights.{weigh, weigh_waiting}
use c_playground.ThreadPool.Workers.Moving.{
  Defined, at-Defined, carried_none, weigh_empty, counted_out, destroy_undefined, spins,
}

module _ {c : Setup} {queue : World} {s : System} (made : IsMade c queue)
    (r : Reach c queue s) where
  -- In every reachable state `num_threads_alive` is the number of workers between their `+= 1` and
  -- their `--`, `num_threads_working` the number of those between `++` and `--`, and `thcount_lock`
  -- is free or held by exactly one thread, worker or client.
  pub pool_counters :
      (s.pool.num_threads_alive ≡ total registered c.workers s.pc)
      × (s.pool.num_threads_working ≡ total busy c.workers s.pc)
      × (s.pool.thcount_lock + total holds c.workers s.pc + holds_client s.pool.client ≡ 1)
  pool_counters = let inv = Reach-Inv made r in (inv.alive, inv.working, inv.token)

  -- In every reachable state before the pool is destroyed, for every measure of tasks: the accepted
  -- tasks weigh as much as those called, those of the jobs that the queue holds, and those that a
  -- worker has pulled and not called yet, together.
  pub tasks_conserved :
      (f : Task → ℕ)
      → s.pool.client ≢ destroyed
      → (es : List Entry) × IsQueue es s.pool.queue
        × (weigh f s.pool.submitted
            ≡ weigh f s.pool.called + weigh_waiting f es + total (carried f) c.workers s.pc)
  tasks_conserved f alive = let t = Reach-Tally f made r alive in (t.es, t.queue, t.even)

  -- When `thpool_wait` has returned and nothing was called since, the queue is empty and the tasks
  -- that were called are those that were accepted, each as often.
  pub wait_done :
      (f : Task → ℕ)
      → s.pool.client ≡ returned
      → (s.pool.queue.len ≡ 0) × (weigh f s.pool.submitted ≡ weigh f s.pool.called)
  wait_done f e =
      let at = at_client (Reach-Inv made r) returned e in
      let t = Reach-Tally f made r (λ d. absurd (cc)) in
      let idle = total-const_zero (carried f) c.workers s.pc λ i lt.
        carried_none f (s.pc i) (omega (arith, at.3, le-total running c.workers s.pc i lt)) in
      (at.2, omega (arith, t.even, idle, weigh_empty f t.es (omega (arith, at.2, t.queue.counted))))

  -- In every reachable state, what worker `i` does is defined, wherever it follows pointers to jobs:
  -- `jobqueue_pull` and the two reads behind it; `free(job)`, so that no job is freed twice; and, with
  -- the job's function called and the job not freed yet, each `thpool_add_work` of that function that
  -- `len` has room for, whatever `malloc` returns.
  pub workers-Defined : (i : ℕ) → Defined s.pool.queue (s.pc i)
  workers-Defined i =
      let inv = Reach-Inv made r in
      at-Defined s.pool.queue inv.es (s.pc i)
        (λ some_alive.
          QueueAt-live s.pool.client inv.es s.pool.queue _ _ _ _ _ _ inv.at
            (elim (dec_lt i c.workers) [
              | yes lt ↦
                  omega (arith, inv.alive, some_alive, le-total registered c.workers s.pc i lt)
              | no out ↦ absurd (
                  let w = ap registered (inv.outside i (omega arith)) in
                  omega (arith, w, some_alive))
            ])
            inv.queue)
        (inv.held i)

  -- When the loops of `thpool_destroy` are over, every worker has counted itself out. The loop of
  -- `jobqueue_clear` then frees all jobs that wait, and no other cell, and leaves the queue empty; but
  -- `jobqueue_destroy` as a whole is undefined, since it initializes a mutex a second time.
  pub destroy_drains :
      s.pool.client ≡ cleaning
      → ((i : ℕ) → i < c.workers → (s.pc i ≡ leaving) ⊎ (s.pc i ≡ exited))
        × (es : List Entry) × IsQueue es s.pool.queue
        × Emptied es s.pool.queue (drain s.pool.queue.len s.pool.queue)
        × (destroy_queue s.pool.queue ≡ undefined)
  destroy_drains e =
      let inv = Reach-Inv made r in
      let at = at_client inv cleaning e in
      let is = queue_client inv cleaning e in
      let d = clear-Drained s.pool.queue inv.es is in
      (
        λ i lt.
            counted_out (s.pc i)
              (omega (arith, at.2, inv.alive, le-total registered c.workers s.pc i lt))
              (omega (arith, at.1, le-total unborn c.workers s.pc i lt)),
        inv.es,
        is,
        d.0,
        destroy_undefined s.pool.queue d.1,
      )

  -- With fewer workers created than asked for, `thpool_init` never returns.
  pub init_stuck : c.workers < c.num_threads → s.pool.client ≡ spinning
  init_stuck lt = spins made lt r
