-- ===== src/ThreadPool/Workers/Weights.antt =====
-- The tasks of a pool, weighed, and the steps of a worker.
use c_playground.Prelude.{
  ℕ, ◌+◌, ◌<◌, ◌≡◌, ◌∙◌, refl, sym, ap, subst, none, some, List, [], ◌∷◌, ◌++◌, arith, update,
  total,
}
use c_playground.ThreadPool.Store.{Task}
use c_playground.ThreadPool.Chain.{Entry, Off, Linked-update}
use c_playground.ThreadPool.Queue.Laws.{IsQueue}
use c_playground.ThreadPool.Queue.Taking.{
  taken_from, with_v, with_rest, slept_from, woken_from, fetched, fetched_none, freed, same_ok,
}
use c_playground.ThreadPool.Queue.{add_work}
use c_playground.ThreadPool.Queue.Fifo.{add_work-Added}
use c_playground.ThreadPool.Workers.{
  Pc, freeing, Pool, note, Work, register, test, test_off, take, doze, rouse, retest, retest_off,
  enter, pull_next, pull_none, call, add_more, skip, free_job, finish, quit, leave,
}
use c_playground.ThreadPool.Workers.Defs.{carried, owned}

-- The tasks of a list, weighed by any measure: equal for all measures means the same tasks, each as
-- often.
abbrev pub weigh : (Task → ℕ) → List Task → ℕ
weigh f [] = 0
weigh f (task ∷ tasks) = f task + weigh f tasks

abbrev pub weigh_waiting : (Task → ℕ) → List Entry → ℕ
weigh_waiting f [] = 0
weigh_waiting f (e ∷ es) = f e.1 + weigh_waiting f es

pub weigh-append :
    (f : Task → ℕ) (es : List Entry) (e : Entry)
    → weigh_waiting f (es ++ e ∷ []) ≡ weigh_waiting f es + f e.1
weigh-append f [] e = omega arith
weigh-append f (x ∷ es) e = omega (arith, weigh-append f es e)

-- The waiting jobs, and where every accepted task is.
pub record Tally (f : Task → ℕ) (n : ℕ) (m : Pool) (pc : ℕ → Pc) : Type 0 where
  pub es : List Entry
  pub queue : IsQueue es m.queue
  pub even : weigh f m.submitted ≡ weigh f m.called + weigh_waiting f es + total (carried f) n pc

module _ (f : Task → ℕ) (n i : ℕ) {m : Pool} {pc : ℕ → Pc} (lt : i < n) (t : Tally f n m pc) where
  -- The step of worker `i` from `p` to `p'` neither takes nor calls a task.
  same_tasks :
      (p p' : Pc) (m' : Pool)
      → total (carried f) n (update pc i p') + carried f p ≡ total (carried f) n pc + carried f p'
      → carried f p ≡ carried f p'
      → IsQueue t.es m'.queue
      → m'.submitted ≡ m.submitted
      → m'.called ≡ m.called
      → Tally f n m' (update pc i p')
  same_tasks p p' m' count same is subs calls = record {
    es = t.es;
    queue = is;
    even = omega (arith, t.even, count, same, ap (weigh f) subs, ap (weigh f) calls);
  }

  pub Work-Tally :
      {p p' : Pc} {m' : Pool}
      → Work m p m' p'
      → total (carried f) n (update pc i p') + carried f p ≡ total (carried f) n pc + carried f p'
      → ((a : ℕ) → owned p ≡ some a → Off a t.es)
      → Tally f n m' (update pc i p')
  unfolding add_work
  Work-Tally {p} {p'} {m'} (register l) k off = same_tasks p p' m' k refl t.queue refl refl
  Work-Tally {p} {p'} {m'} (test on) k off = same_tasks p p' m' k refl t.queue refl refl
  Work-Tally {p} {p'} {m'} (test_off over) k off = same_tasks p p' m' k refl t.queue refl refl
  Work-Tally {p} {p'} {m'} (take {q} e) k off =
      same_tasks p p' m' k refl
        (subst (IsQueue t.es) (sym (taken_from m.queue q e).1) (with_v m.queue t.es 0 t.queue)) refl
        refl
  Work-Tally {p} {p'} {m'} (doze {q} e) k off =
      let (s, r, same) = slept_from m.queue q e in
      same_tasks p p' m' k refl
        (subst (IsQueue t.es) (sym same) (with_rest m.queue t.es s r t.queue)) refl refl
  Work-Tally {p} {p'} {m'} (rouse early {q} e) k off =
      let (s, r, same) = woken_from early m.queue q e in
      same_tasks p p' m' k refl
        (subst (IsQueue t.es) (sym same) (with_rest m.queue t.es s r t.queue)) refl refl
  Work-Tally {p} {p'} {m'} (retest on) k off = same_tasks p p' m' k refl t.queue refl refl
  Work-Tally {p} {p'} {m'} (retest_off over) k off = same_tasks p p' m' k refl t.queue refl refl
  Work-Tally {p} {p'} {m'} (enter l) k off = same_tasks p p' m' k refl t.queue refl refl
  Work-Tally {p} {p'} {m'} (pull_next a task {q} e) k off =
      let x = fetched m.queue q t.es (a, task) t.queue e in
      record {
        es = x.0;
        queue = subst (IsQueue x.0) (sym x.3) x.2.queue;
        even = omega (arith, t.even, k, ap (weigh_waiting f) x.1);
      }
  Work-Tally {p} {p'} {m'} (pull_none {q} e) k off =
      same_tasks p p' m' k refl
        (subst (IsQueue t.es) (sym (fetched_none m.queue q t.es t.queue e).1) t.queue) refl refl
  Work-Tally (call a task) k off = record {
    es = t.es;
    queue = t.queue;
    even = omega (arith, t.even, k);
  }
  Work-Tally (add_more a none garbage task fresh room e) k off =
      subst
        (λ r.
          Tally f n (record m { queue = r.1; submitted = note r.0 task m.submitted })
            (update pc i (freeing a)))
        (same_ok e) (record { es = t.es; queue = t.queue; even = omega (arith, t.even, k) })
  Work-Tally (add_more a (some b) garbage task fresh room e) k off =
      let x =
        add_work-Added m.queue t.es b garbage task t.queue fresh
          (omega (arith, room, t.queue.counted)) in
      subst
        (λ r.
          Tally f n (record m { queue = r.1; submitted = note r.0 task m.submitted })
            (update pc i (freeing a)))
        (same_ok (sym x.run ∙ e))
        (record {
          es = t.es ++ (b, task) ∷ [];
          queue = x.queue;
          even = omega (arith, t.even, k, weigh-append f t.es (b, task));
        })
  Work-Tally {p} {p'} {m'} skip k off = same_tasks p p' m' k refl t.queue refl refl
  Work-Tally {p} {p'} {m'} (free_job a {q} e) k off =
      same_tasks p p' m' k refl
        (subst (IsQueue t.es) (sym (freed m.queue q a e)) (record {
          linked =
              Linked-update m.queue.cells a none m.queue.front m.queue.rear t.es (off a refl)
                t.queue.linked;
          counted = t.queue.counted;
          small = t.queue.small;
          v = t.queue.v;
          posted = t.queue.posted;
          made = t.queue.made;
        }))
        refl refl
  Work-Tally {p} {p'} {m'} (finish l) k off = same_tasks p p' m' k refl t.queue refl refl
  Work-Tally {p} {p'} {m'} (quit l) k off = same_tasks p p' m' k refl t.queue refl refl
  Work-Tally {p} {p'} {m'} leave k off = same_tasks p p' m' k refl t.queue refl refl
