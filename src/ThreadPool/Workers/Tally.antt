-- ===== src/ThreadPool/Workers/Tally.antt =====
-- Every accepted task of a pool waits, is carried by one worker, or was called, and once only.
use c_playground.Prelude.{
  ℕ, ◌-◌, ◌≡◌, ◌≢◌, refl, sym, ap, subst, ◌∙◌, true, none, some, List, [], ◌∷◌, ◌++◌, ◌==◌,
  if◌then◌else◌, arith, total-update, total-const_zero, Bool, true, false,
}
use c_playground.ThreadPool.Store.{Task, World, free, bsem_post_all, cond_broadcast}
use c_playground.ThreadPool.Chain.{Entry, Off, Linked-unique}
use c_playground.ThreadPool.Queue.{add_work}
use c_playground.ThreadPool.Queue.Laws.{IsQueue}
use c_playground.ThreadPool.Queue.Taking.{with_v, with_rest, same_ok}
use c_playground.ThreadPool.Queue.Fifo.{add_work-Added}
use c_playground.ThreadPool.Workers.{
  Pc, starting, Client, idle, checking, destroyed, Pool, Setup, System, signal, note, may_call,
  Work, register, test, test_off, take, doze, rouse, retest, retest_off, enter, pull_next,
  pull_none, call, add_more, skip, free_job, finish, quit, leave, Act, ready, submit, lock, see_len,
  jobs_wait, see_working, jobs_run, wake, spurious, unlock, stop, check_dead, check_alive, post_all,
  clean, by_worker, by_client, Reach, start, later,
}
use c_playground.ThreadPool.Workers.Defs.{carried, owned, Held, Inv}
use c_playground.ThreadPool.Workers.Owned.{QueueAt-there}
use c_playground.ThreadPool.Workers.Calls.{IsMade, Reach-Inv}
use c_playground.ThreadPool.Workers.Weights.{weigh-append, Tally, Work-Tally}

-- The client's calls: only `thpool_add_work` brings a task.
Act-Tally :
    (f : Task → ℕ) (n num_threads : ℕ) {m m' : Pool} {pc : ℕ → Pc}
    → Tally f n m pc
    → Act num_threads m m'
    → m'.client ≢ destroyed
    → Tally f n m' pc
unfolding add_work bsem_post_all
Act-Tally f n num_threads t (ready e all) alive = record {
  es = t.es;
  queue = t.queue;
  even = t.even;
}
Act-Tally f n num_threads {m} {pc} t (submit none garbage task may fresh room e) alive =
    subst
      (λ r.
        Tally f n (record m { queue = r.1; client = idle; submitted = note r.0 task m.submitted })
          pc)
      (same_ok e) (record { es = t.es; queue = t.queue; even = t.even })
Act-Tally f n num_threads {m} {pc} t (submit (some a) garbage task may fresh room e) alive =
    let x =
      add_work-Added m.queue t.es a garbage task t.queue fresh
        (omega (arith, room, t.queue.counted)) in
    subst
      (λ r.
        Tally f n (record m { queue = r.1; client = idle; submitted = note r.0 task m.submitted })
          pc)
      (same_ok (sym x.run ∙ e))
      (record {
        es = t.es ++ (a, task) ∷ [];
        queue = x.queue;
        even = omega (arith, t.even, weigh-append f t.es (a, task));
      })
Act-Tally f n num_threads t (lock may free) alive = record {
  es = t.es;
  queue = t.queue;
  even = t.even;
}
Act-Tally f n num_threads t (see_len e z) alive = record {
  es = t.es;
  queue = t.queue;
  even = t.even;
}
Act-Tally f n num_threads t (jobs_wait e z) alive = record {
  es = t.es;
  queue = t.queue;
  even = t.even;
}
Act-Tally f n num_threads t (see_working e z) alive = record {
  es = t.es;
  queue = t.queue;
  even = t.even;
}
Act-Tally f n num_threads t (jobs_run e z) alive = record {
  es = t.es;
  queue = t.queue;
  even = t.even;
}
Act-Tally f n num_threads t (wake e z) alive = record { es = t.es; queue = t.queue; even = t.even }
Act-Tally f n num_threads t (spurious e) alive = record {
  es = t.es;
  queue = t.queue;
  even = t.even;
}
Act-Tally f n num_threads t (unlock e) alive = record { es = t.es; queue = t.queue; even = t.even }
Act-Tally f n num_threads t (stop may) alive = record { es = t.es; queue = t.queue; even = t.even }
Act-Tally f n num_threads t (check_dead e z) alive = record {
  es = t.es;
  queue = t.queue;
  even = t.even;
}
Act-Tally f n num_threads t (check_alive e z) alive = record {
  es = t.es;
  queue = t.queue;
  even = t.even;
}
Act-Tally f n num_threads {m} {pc} t (post_all {q} e run) alive =
    let same : q ≡ record (cond_broadcast m.queue) { bsem = some 1 } =
      ground (arith, t.queue.posted) in
    subst (λ w. Tally f n (record m { queue = w; client = checking }) pc) (sym same)
      (record {
        es = t.es;
        queue =
            with_rest (record m.queue { bsem = some 1 }) t.es _ _ (with_v m.queue t.es 1 t.queue);
        even = t.even;
      })
Act-Tally f n num_threads t (clean e run) alive = absurd (alive refl)

-- A client that has destroyed the pool calls nothing more.
Act-alive : (num_threads : ℕ) {m m' : Pool} → Act num_threads m m' → m.client ≡ destroyed → ⊥
Act-alive num_threads (ready e all) gone = cc
Act-alive num_threads {m} (submit malloc garbage task may fresh room e) gone =
    let no = sym (ap may_call gone) ∙ may in cc
Act-alive num_threads {m} (lock may free) gone = let no = sym (ap may_call gone) ∙ may in cc
Act-alive num_threads (see_len e z) gone = cc
Act-alive num_threads (jobs_wait e z) gone = cc
Act-alive num_threads (see_working e z) gone = cc
Act-alive num_threads (jobs_run e z) gone = cc
Act-alive num_threads (wake e z) gone = cc
Act-alive num_threads (spurious e) gone = cc
Act-alive num_threads (unlock e) gone = cc
Act-alive num_threads {m} (stop may) gone = let no = sym (ap may_call gone) ∙ may in cc
Act-alive num_threads (check_dead e z) gone = cc
Act-alive num_threads (check_alive e z) gone = cc
Act-alive num_threads (post_all e run) gone = cc
Act-alive num_threads (clean e run) gone = cc

-- A client that does not sleep is where no worker moves it.
module _ (at : Client) (moved : signal at ≡ at) where
  done-same : (b : Bool) (cl : Client) → cl ≡ at → (if b then signal cl else cl) ≡ at
  done-same true cl e = ap signal e ∙ moved
  done-same false cl e = e

  pub Work-same : {m m' : Pool} {p p' : Pc} → Work m p m' p' → m.client ≡ at → m'.client ≡ at
  Work-same (register l) e = e
  Work-same (test on) e = e
  Work-same (test_off over) e = e
  Work-same (take x) e = e
  Work-same (doze x) e = e
  Work-same (rouse early x) e = e
  Work-same (retest on) e = e
  Work-same (retest_off over) e = e
  Work-same (enter l) e = e
  Work-same (pull_next a task x) e = e
  Work-same (pull_none x) e = e
  Work-same (call a task) e = e
  Work-same (add_more a malloc garbage task fresh room x) e = e
  Work-same skip e = e
  Work-same (free_job a x) e = e
  Work-same {m} (finish l) e = done-same ((m.num_threads_working - 1) == 0) m.client e
  Work-same (quit l) e = e
  Work-same leave e = e

-- The jobs that workers own do not wait, whichever chain describes the queue.
owned-Off :
    {c : Setup} {m : Pool} {pc : ℕ → Pc} (inv : Inv c m pc) (es : List Entry) (i : ℕ)
    → IsQueue es m.queue
    → m.client ≢ destroyed
    → (a : ℕ) → owned (pc i) ≡ some a
    → Off a es
owned-Off {m} {pc} inv es i is alive a mine =
    let is' = QueueAt-there m.client inv.es m.queue alive inv.queue in
    let same =
      Linked-unique m.queue.cells m.queue.front m.queue.rear m.queue.rear inv.es es is'.linked
        is.linked in
    subst (Off a) same (subst (Held m.queue.cells inv.es) mine (inv.held i)).2

-- The tasks are accounted for in every reachable state, until the pool is destroyed.
pub Reach-Tally :
    {c : Setup} {queue : World} {s : System} (f : Task → ℕ)
    → IsMade c queue
    → Reach c queue s
    → s.pool.client ≢ destroyed
    → Tally f c.workers s.pool s.pc
Reach-Tally {c} f made start alive = record {
  es = [];
  queue = made.empty;
  even = omega (arith, total-const_zero (carried f) c.workers (λ _. starting) (λ i lt. refl));
}
Reach-Tally {c} f made (later {s} r (by_worker i {p = p} lt w)) alive =
    let before : s.pool.client ≢ destroyed = λ e. alive (Work-same destroyed refl w e) in
    let t = Reach-Tally f made r before in
    Work-Tally f c.workers i lt t w (total-update (carried f) c.workers s.pc i p lt)
      (owned-Off (Reach-Inv made r) t.es i t.queue before)
Reach-Tally {c} f made (later r (by_client a)) alive =
    Act-Tally f c.workers c.num_threads (Reach-Tally f made r (Act-alive c.num_threads a)) a alive
