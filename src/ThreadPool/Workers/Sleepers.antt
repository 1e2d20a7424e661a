-- ===== src/ThreadPool/Workers/Sleepers.antt =====
-- The sleepers on the semaphore of a pool: how many they are, and that no post is lost on them.
use c_playground.Prelude.{
  ℕ, zero, suc, ◌+◌, ◌-◌, ◌^◌, ◌≤◌, ◌<◌, ◌≡◌, refl, sym, ap, subst, ◌∙◌, true, false, Option, none,
  some, List, arith, update, total, total-update, total-const_zero, inl, inr,
}
use c_playground.Machine.{ℤ}
use c_playground.ThreadPool.Store.{
  Task, World, ok, bsem_sleep, bsem_wake, bsem_post_all, one_of, cond_broadcast,
}
use c_playground.ThreadPool.Chain.{Entry}
use c_playground.ThreadPool.Queue.{add_work}
use c_playground.ThreadPool.Queue.Laws.{IsQueue, Effect, Signals}
use c_playground.ThreadPool.Queue.Fifo.{add_work-Added}
use c_playground.ThreadPool.Queue.Clearing.{clear-Drained}
use c_playground.ThreadPool.Queue.Taking.{taken_from, fetched, fetched_none, freed, same_ok}
use c_playground.ThreadPool.Workers.{
  Pc, starting, waiting, dozing, cleaning, posting, Pool, Setup, System, IsFresh, Work, register,
  test, test_off, take, doze, rouse, retest, retest_off, enter, pull_next, pull_none, call,
  add_more, skip, free_job, finish, quit, leave, Act, ready, submit, lock, see_len, jobs_wait,
  see_working, jobs_run, wake, spurious, unlock, stop, check_dead, check_alive, post_all, clean,
  by_worker, by_client, Reach, start, later,
}
use c_playground.ThreadPool.Workers.Defs.{Inv}
use c_playground.ThreadPool.Workers.Moves.{Mover, mover}
use c_playground.ThreadPool.Workers.Invariant.{queue_here}
use c_playground.ThreadPool.Workers.Moving.{destroy_undefined}
use c_playground.ThreadPool.Workers.Calls.{IsMade, Reach-Inv, queue_client, called_from}

-- In the `pthread_cond_wait` of `bsem_wait`.
abbrev pub dozes : Pc → ℕ
dozes dozing = 1
dozes _ = 0

-- Before the test of `bsem_wait`.
abbrev pub tests : Pc → ℕ
tests waiting = 1
tests _ = 0

-- The workers in `pthread_cond_wait` are those that sleep and those that were let go; while the
-- semaphore is posted and one sleeps, another one was let go or is before its test.
pub record Heard (n : ℕ) (q : World) (pc : ℕ → Pc) : Type 0 where
  pub count : q.sleepers + q.released ≡ total dozes n pc
  pub woken : q.bsem ≡ some 1 → 0 < q.sleepers → 0 < q.released + total tests n pc

one_of-sum : (s : ℕ) → s - 1 + one_of s ≡ s
one_of-sum zero = omega arith
one_of-sum (suc s) = omega arith

-- A step that neither falls asleep nor wakes up, and leaves no test undone.
module _ {n : ℕ} {q q' : World} {pc pc' : ℕ → Pc} (h : Heard n q pc)
    (same : total dozes n pc' ≡ total dozes n pc)
    (more : total tests n pc ≤ total tests n pc') where
  quiet : q'.sleepers ≡ q.sleepers → q'.released ≡ q.released → q'.bsem ≡ q.bsem → Heard n q' pc'
  quiet s r b = record {
    count = omega (arith, h.count, same, s, r);
    woken = λ on some_asleep.
        let old = h.woken (sym b ∙ on) (omega (arith, s, some_asleep)) in
        omega (arith, old, more, r);
  }

  signalled : Signals q q' → Heard n q' pc'
  signalled (s, r, b) = record {
    count = omega (arith, h.count, same, s, r, one_of-sum q.sleepers);
    woken = λ on some_asleep. omega (arith, s, r, some_asleep, one_of-sum q.sleepers);
  }

  by_effect : Effect q q' → Heard n q' pc'
  by_effect (inl (s, r, b)) = quiet s r b
  by_effect (inr s) = signalled s

-- What `thpool_add_work` does to the semaphore.
pub add_work-Effect :
    (w : World) (es : List Entry) (malloc garbage : Option ℕ) (task : Task) {code : ℤ} {q : World}
    → IsQueue es w
    → IsFresh malloc w.cells
    → w.len + 1 < 2 ^ 31
    → add_work malloc garbage task w ≡ ok (code, q)
    → Effect w q
unfolding add_work
add_work-Effect w es none garbage task is fresh room e =
    subst (Effect w) (ap (λ (x : ℤ × World). x.1) (same_ok e)) (inl (refl, refl, refl))
add_work-Effect w es (some a) garbage task is fresh room e =
    let x = add_work-Added w es a garbage task is fresh (omega (arith, room, is.counted)) in
    subst (Effect w) (ap (λ (y : ℤ × World). y.1) (same_ok (sym x.run ∙ e))) (inr x.signals)

pub slept-facts :
    (w q : World)
    → bsem_sleep w ≡ some q
    → (w.bsem ≡ some 1 → ⊥) × (q ≡ record w { sleepers = w.sleepers + 1 })
unfolding bsem_sleep
slept-facts w q e = (λ on. ground (arith, on, e), ground (arith, e))

pub woken-facts :
    (w q : World)
    → bsem_wake false w ≡ some q
    → (0 < w.released) × (q ≡ record w { released = w.released - 1 })
unfolding bsem_wake
woken-facts w q e = ground arith

pub early-facts :
    (w q : World)
    → bsem_wake true w ≡ some q
    → (0 < w.sleepers) × (q ≡ record w { sleepers = w.sleepers - 1 })
unfolding bsem_wake
early-facts w q e = ground arith

-- One step of worker `i`.
module _ {c : Setup} {m : Pool} {pc : ℕ → Pc} (inv : Inv c m pc) (h : Heard c.workers m.queue pc)
    (i : ℕ) where
  abbrev n : ℕ
  n = c.workers

  rests : (pc' : ℕ → Pc) (q q' : World) → q ≡ q' → Heard n q pc' → Heard n q' pc'
  rests pc' q q' e = subst (λ w. Heard n w pc') e

  Work-Heard :
      {p p' : Pc} {m' : Pool}
      → Work m p m' p'
      → Mover inv i p p'
      → total dozes n (update pc i p') + dozes p ≡ total dozes n pc + dozes p'
      → total tests n (update pc i p') + tests p ≡ total tests n pc + tests p'
      → Heard n m'.queue (update pc i p')
  Work-Heard (register l) f dz tz = quiet h (omega arith) (omega arith) refl refl refl
  Work-Heard (test on) f dz tz = quiet h (omega arith) (omega arith) refl refl refl
  Work-Heard (test_off off) f dz tz = quiet h (omega arith) (omega arith) refl refl refl
  Work-Heard (take {q} e) f dz tz =
      let t = taken_from m.queue q e in
      rests _ _ q (sym t.1)
        (record { count = omega (arith, h.count, dz); woken = λ on some_asleep. absurd (cc) })
  Work-Heard (doze {q} e) f dz tz =
      let t = slept-facts m.queue q e in
      rests _ _ q (sym t.1)
        (record { count = omega (arith, h.count, dz); woken = λ on some_asleep. absurd (t.0 on) })
  Work-Heard (rouse false {q} e) f dz tz =
      let t = woken-facts m.queue q e in
      rests _ _ q (sym t.1) (record {
        count = omega (arith, h.count, dz, t.0);
        woken = λ on some_asleep. omega (arith, tz);
      })
  Work-Heard (rouse true {q} e) f dz tz =
      let t = early-facts m.queue q e in
      rests _ _ q (sym t.1) (record {
        count = omega (arith, h.count, dz, t.0);
        woken = λ on some_asleep. omega (arith, tz);
      })
  Work-Heard (retest on) f dz tz = quiet h (omega arith) (omega arith) refl refl refl
  Work-Heard (retest_off off) f dz tz = quiet h (omega arith) (omega arith) refl refl refl
  Work-Heard (enter l) f dz tz = quiet h (omega arith) (omega arith) refl refl refl
  Work-Heard (pull_next a task {q} e) f dz tz =
      let x = fetched m.queue q inv.es (a, task) (queue_here inv i f (omega arith)) e in
      rests _ _ q (sym x.3) (by_effect h (omega arith) (omega arith) x.2.effect)
  Work-Heard (pull_none {q} e) f dz tz =
      let x = fetched_none m.queue q inv.es (queue_here inv i f (omega arith)) e in
      rests _ _ q (sym x.1) (quiet h (omega arith) (omega arith) refl refl refl)
  Work-Heard (call a task) f dz tz = quiet h (omega arith) (omega arith) refl refl refl
  Work-Heard (add_more a malloc garbage task fresh room e) f dz tz =
      by_effect h (omega arith) (omega arith) (
        add_work-Effect m.queue inv.es malloc garbage task (queue_here inv i f (omega arith)) fresh
          room e)
  Work-Heard skip f dz tz = quiet h (omega arith) (omega arith) refl refl refl
  Work-Heard (free_job a {q} e) f dz tz =
      rests _ _ q (sym (freed m.queue q a e)) (quiet h (omega arith) (omega arith) refl refl refl)
  Work-Heard (finish l) f dz tz = quiet h (omega arith) (omega arith) refl refl refl
  Work-Heard (quit l) f dz tz = quiet h (omega arith) (omega arith) refl refl refl
  Work-Heard leave f dz tz = quiet h (omega arith) (omega arith) refl refl refl

posted-facts :
    (w q : World) (v : ℕ)
    → w.bsem ≡ some v
    → bsem_post_all w ≡ ok (tt, q)
    → q ≡ record (cond_broadcast w) { bsem = some 1 }
unfolding bsem_post_all
posted-facts w q v there run = ground (arith, there)

-- One step of the client.
module _ {c : Setup} {m : Pool} {pc : ℕ → Pc} (inv : Inv c m pc)
    (h : Heard c.workers m.queue pc) where
  Act-Heard : {m' : Pool} → Act c.num_threads m m' → Heard c.workers m'.queue pc
  Act-Heard (ready e all) = h
  Act-Heard (submit malloc garbage task may fresh room run) = by_effect h refl (omega arith) (
      add_work-Effect m.queue inv.es malloc garbage task (called_from inv may).queue fresh room run)
  Act-Heard (lock may l) = h
  Act-Heard (see_len e z) = h
  Act-Heard (jobs_wait e z) = h
  Act-Heard (see_working e z) = h
  Act-Heard (jobs_run e z) = h
  Act-Heard (wake e l) = h
  Act-Heard (spurious e) = h
  Act-Heard (unlock e) = h
  Act-Heard (stop may) = h
  Act-Heard (check_dead e z) = h
  Act-Heard (check_alive e z) = h
  Act-Heard (post_all {q} e run) =
      let is = queue_client inv posting e in
      subst (λ w. Heard c.workers w pc) (sym (posted-facts m.queue q is.v is.posted run))
        (record { count = omega (arith, h.count); woken = λ on some_asleep. absurd (omega arith) })
  Act-Heard (clean e run) =
      let is = queue_client inv cleaning e in
      let gone = destroy_undefined m.queue (clear-Drained m.queue inv.es is).1 in absurd (cc)

-- A pool is made with a semaphore on which nobody waits.
pub Reach-Heard :
    {c : Setup} {queue : World} {s : System}
    → IsMade c queue
    → queue.sleepers ≡ 0
    → queue.released ≡ 0
    → Reach c queue s
    → Heard c.workers s.pool.queue s.pc
Reach-Heard {c} made none_sleeps none_released start = record {
  count = omega (
    arith,
    none_sleeps,
    none_released,
    total-const_zero dozes c.workers (λ _. starting) (λ i lt. refl),
  );
  woken = λ on some_asleep. absurd (omega (arith, none_sleeps, some_asleep));
}
Reach-Heard {c} made z z' (later {s} r (by_worker i {m} {p} lt w)) =
    let inv = Reach-Inv made r in
    Work-Heard inv (Reach-Heard made z z' r) i w (mover inv i lt p)
      (total-update dozes c.workers s.pc i p lt) (total-update tests c.workers s.pc i p lt)
Reach-Heard made z z' (later r (by_client a)) =
    Act-Heard (Reach-Inv made r) (Reach-Heard made z z' r) a
