-- ===== src/ThreadPool/Workers/Invariant.antt =====
-- Every step keeps the invariant of a pool.
use c_playground.Prelude.{
  ℕ, ◌^◌, Option, none, some, [], ◌∷◌, length-append, ◌+◌, ◌-◌, ◌≤◌, ◌<◌, ◌≡◌, sym, ap, ◌∙◌, true,
  false, ◌==◌, arith, update, update-other, total, ℕ_discrete,
}
use c_playground.ThreadPool.Store.{Task, World, ok}
use c_playground.ThreadPool.Queue.Laws.{IsQueue}
use c_playground.ThreadPool.Queue.Taking.{
  taken_from, slept_from, woken_from, fetched, fetched_none, freed, same_ok,
}
use c_playground.ThreadPool.Queue.{add_work}
use c_playground.ThreadPool.Queue.Fifo.{add_work-Added}
use c_playground.Machine.{ℤ}
use c_playground.ThreadPool.Workers.{
  Pc, testing, finishing, Pool, Setup, signal, IsFresh, job_done, Work, register, test, test_off,
  take, doze, rouse, retest, retest_off, enter, pull_next, pull_none, call, add_more, skip,
  free_job, finish, quit, leave,
}
use c_playground.ThreadPool.Workers.Defs.{registered, unborn, running, ClientAt, Inv}
use c_playground.ThreadPool.Workers.Moves.{
  Mover, mover, Work-Counts, ClientAt-drift, signal-ClientAt, holds_client-signal,
}
use c_playground.ThreadPool.Workers.Jobs.{Work-Jobs}
use c_playground.ThreadPool.Workers.Kept.{owner, live}

module _ {c : Setup} {m : Pool} {pc : ℕ → Pc} (inv : Inv c m pc) (i : ℕ) where
  abbrev AtNext : Pool → Pc → Type 0
  AtNext m' p' =
      ClientAt m'.client m'.threads_keepalive m'.queue.len m'.num_threads_working
        m'.num_threads_alive (total unborn c.workers (update pc i p'))
        (total running c.workers (update pc i p'))

  pub queue_here : {p p' : Pc} → Mover inv i p p' → 1 ≤ registered p → IsQueue inv.es m.queue
  queue_here f reg = live inv i (omega (arith, inv.alive, f.own_alive, reg))

  finish-At : m.thcount_lock ≡ 1 → (f : Mover inv i finishing testing) → AtNext (job_done m) testing
  finish-At l f = elim (ℕ_discrete (m.num_threads_working - 1) 0) [
    | yes z ↦
        let zero_left : ((m.num_threads_working - 1) == 0) ≡ true = ground arith in
        rw zero_left (
          ClientAt-drift (signal m.client) _ _ _ _ _ _ _ _ _ _ _
            (ground (arith, f.unborn_count, f.running_count, holds_client-signal m.client))
            (signal-ClientAt m.client _ _ _ _ _ _ (m.num_threads_working - 1)
              (omega (arith, inv.token, l)) inv.at))
    | no ne ↦
        let some_left : ((m.num_threads_working - 1) == 0) ≡ false = ground arith in
        rw some_left (
          ClientAt-drift m.client _ _ _ _ _ _ _ _ _ _ _
            (ground (arith, f.unborn_count, f.running_count, ne)) inv.at)
  ]

  -- `thpool_add_work` takes no job out of the queue, and puts one in at most.
  pub added_len :
      (malloc garbage : Option ℕ) (task : Task) {code : ℤ} {q : World}
      → IsQueue inv.es m.queue
      → IsFresh malloc m.queue.cells
      → m.queue.len + 1 < 2 ^ 31
      → add_work malloc garbage task m.queue ≡ ok (code, q)
      → (m.queue.len ≤ q.len) × (q.len ≤ m.queue.len + 1)
  unfolding add_work
  added_len none garbage task is fresh room e =
      let same = ap (λ (x : ℤ × World). x.1.len) (same_ok e) in omega (arith, same)
  added_len (some b) garbage task is fresh room e =
      let x =
        add_work-Added m.queue inv.es b garbage task is fresh (omega (arith, room, is.counted)) in
      let same = ap (λ (y : ℤ × World). y.1.len) (same_ok (sym x.run ∙ e)) in
      omega (arith, same, is.counted, x.queue.counted, length-append inv.es ((b, task) ∷ []))

  pub Work-At : {p p' : Pc} {m' : Pool} → Work m p m' p' → Mover inv i p p' → AtNext m' p'
  Work-At (register l) f = ClientAt-drift m.client _ _ _ _ _ _ _ _ _ _ _ (ground arith) inv.at
  Work-At (test on) f = ClientAt-drift m.client _ _ _ _ _ _ _ _ _ _ _ (ground arith) inv.at
  Work-At (test_off off) f = ClientAt-drift m.client _ _ _ _ _ _ _ _ _ _ _ (ground arith) inv.at
  Work-At (take {q} e) f =
      let len = ap (λ (w : World). w.len) (taken_from m.queue q e).1 in
      ClientAt-drift m.client _ _ _ _ _ _ _ _ _ _ _ (ground arith) inv.at
  Work-At (doze {q} e) f =
      let len = ap (λ (w : World). w.len) (slept_from m.queue q e).2 in
      ClientAt-drift m.client _ _ _ _ _ _ _ _ _ _ _ (ground arith) inv.at
  Work-At (rouse early {q} e) f =
      let len = ap (λ (w : World). w.len) (woken_from early m.queue q e).2 in
      ClientAt-drift m.client _ _ _ _ _ _ _ _ _ _ _ (ground arith) inv.at
  Work-At (retest on) f = ClientAt-drift m.client _ _ _ _ _ _ _ _ _ _ _ (ground arith) inv.at
  Work-At (retest_off off) f = ClientAt-drift m.client _ _ _ _ _ _ _ _ _ _ _ (ground arith) inv.at
  Work-At (enter l) f = ClientAt-drift m.client _ _ _ _ _ _ _ _ _ _ _ (ground arith) inv.at
  Work-At (pull_next a task {q} e) f =
      let x = fetched m.queue q inv.es (a, task) (queue_here f (omega arith)) e in
      let len : m.queue.len ≡ q.len + 1 = x.2.shorter ∙ ap (λ (w : World). w.len + 1) (sym x.3) in
      ClientAt-drift m.client _ _ _ _ _ _ _ _ _ _ _ (ground arith) inv.at
  Work-At (pull_none {q} e) f =
      let len =
        ap (λ (w : World). w.len)
          (fetched_none m.queue q inv.es (queue_here f (omega arith)) e).1 in
      ClientAt-drift m.client _ _ _ _ _ _ _ _ _ _ _ (ground arith) inv.at
  Work-At (call a task) f = ClientAt-drift m.client _ _ _ _ _ _ _ _ _ _ _ (ground arith) inv.at
  Work-At (add_more a malloc garbage task {code} {q} fresh room e) f =
      let longer = added_len malloc garbage task (queue_here f (omega arith)) fresh room e in
      ClientAt-drift m.client _ _ _ _ _ _ _ _ _ _ _ (ground arith) inv.at
  Work-At skip f = ClientAt-drift m.client _ _ _ _ _ _ _ _ _ _ _ (ground arith) inv.at
  Work-At (free_job a {q} e) f =
      let len = ap (λ (w : World). w.len) (freed m.queue q a e) in
      ClientAt-drift m.client _ _ _ _ _ _ _ _ _ _ _ (ground arith) inv.at
  Work-At (finish l) f = finish-At l f
  Work-At (quit l) f = ClientAt-drift m.client _ _ _ _ _ _ _ _ _ _ _ (ground arith) inv.at
  Work-At leave f = ClientAt-drift m.client _ _ _ _ _ _ _ _ _ _ _ (ground arith) inv.at

  pub Work-Inv :
      {m' : Pool} {p' : Pc} → i < c.workers → Work m (pc i) m' p' → Inv c m' (update pc i p')
  Work-Inv {m'} {p'} lt w =
      let f = mover inv i lt p' in
      let counts = Work-Counts inv i w f in
      let jobs = Work-Jobs inv i w (owner inv i) f in
      record {
        asked = inv.asked;
        alive = counts.alive;
        working = counts.working;
        token = counts.token;
        outside = λ j le. update-other pc i p' j (omega (arith, lt, le)) ∙ inv.outside j le;
        es = jobs.es;
        queue = jobs.queue;
        held = jobs.held;
        apart = jobs.apart;
        awake = jobs.awake;
        staying = counts.staying;
        at = Work-At w f;
      }
