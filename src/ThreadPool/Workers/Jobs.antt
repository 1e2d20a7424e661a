-- ===== src/ThreadPool/Workers/Jobs.antt =====
-- The queue, the owned jobs and the wake-ups of a pool after a step of one worker.
use c_playground.Prelude.{
  ℕ, ◌+◌, ◌^◌, [], ◌∷◌, ◌++◌, ◌-◌, length, ◌<◌, ◌≤◌, ◌≡◌, refl, sym, ap, subst, ◌∙◌, true, false,
  Option, none, some, ◌==◌, if◌then◌else◌, arith, update, inl, inr, Bool,
}
use c_playground.ThreadPool.Store.{Task, World, bsem_wait, ok, free}
use c_playground.ThreadPool.Chain.{Linked-update}
use c_playground.ThreadPool.Queue.{add_work, pull_job}
use c_playground.ThreadPool.Queue.Fifo.{add_work-Added}
use c_playground.ThreadPool.Workers.Places.{Held-added}
use c_playground.Machine.{ℤ}
use c_playground.ThreadPool.Queue.Taking.{
  taken_from, with_v, with_rest, Rested, slept_from, woken_from, fetched, fetched_none, freed,
  same_ok,
}
use c_playground.ThreadPool.Workers.{
  Pc, waiting, woken, pulling, finishing, calling, freeing, Pool, Setup, signal, note, IsFresh,
  Work, register, test, test_off, take, doze, rouse, retest, retest_off, enter, pull_next,
  pull_none, call, add_more, skip, free_job, finish, quit, leave,
}
use c_playground.ThreadPool.Workers.Defs.{registered, eager, owned, QueueAt, Inv}
use c_playground.ThreadPool.Workers.Moves.{Mover}
use c_playground.ThreadPool.Workers.Owned.{
  IsQueue-QueueAt, Held-tail, Held-other, not_first, posted-some,
}
use c_playground.ThreadPool.Workers.Kept.{
  Owner, Jobs, held-kept, apart-kept, QueueAt-signal, same_heap, awake-kept, live, alive_of,
}

module _ {c : Setup} {m : Pool} {pc : ℕ → Pc} (inv : Inv c m pc) (i : ℕ) where
  take-Jobs :
      (q : World)
      → bsem_wait m.queue ≡ some q
      → Owner inv i waiting
      → Mover inv i waiting woken
      → Jobs inv i (record m { queue = q }) woken
  take-Jobs q e o f =
      let t = taken_from m.queue q e in
      let is = with_v m.queue inv.es 0 (live inv i (alive_of inv i f (omega arith))) in
      subst (λ w. Jobs inv i (record m { queue = w }) woken) (sym t.1)
        (same_heap inv i _ o refl (IsQueue-QueueAt m.client inv.es _ is) (inl refl)
          (λ on some_len. inr (omega (arith, f.eager_count))))

  -- A worker that goes to sleep or wakes up.
  rest-Jobs :
      {p p' : Pc} (q : World)
      → Rested m.queue q
      → 1 ≤ registered p
      → owned p' ≡ none
      → eager p ≤ eager p'
      → Owner inv i p
      → Mover inv i p p'
      → Jobs inv i (record m { queue = q }) p'
  rest-Jobs {p} {p'} q (s, r, same) reg none_owned le o f =
      let is = with_rest m.queue inv.es s r (live inv i (alive_of inv i f reg)) in
      subst (λ w. Jobs inv i (record m { queue = w }) p') (sym same)
        (same_heap inv i _ o refl (IsQueue-QueueAt m.client inv.es _ is) (inl none_owned)
          (awake-kept inv i f le))

  pull-Jobs :
      (a : ℕ) (task : Task) (q : World)
      → pull_job m.queue ≡ ok (some (a, task), q)
      → Mover inv i pulling (calling (some (a, task)))
      → Jobs inv i (record m { queue = q }) (calling (some (a, task)))
  pull-Jobs a task q e f =
      let x = fetched m.queue q inv.es (a, task) (live inv i (alive_of inv i f (omega arith))) e in
      let got = x.2 in
      subst (λ w. Jobs inv i (record m { queue = w }) (calling (some (a, task)))) (sym x.3)
        (record {
          es = x.0;
          queue = IsQueue-QueueAt m.client x.0 got.world got.queue;
          held =
              held-kept inv i got.world.cells x.0 (calling (some (a, task)))
                (got.old, got.held, got.detached)
                (λ j ne.
                  Held-tail m.queue.cells got.world.cells inv.es x.0 (a, task) (owned (pc j))
                    got.same_heap x.1 (inv.held j));
          apart = apart-kept inv i (calling (some (a, task))) (λ b j mine ne theirs.
              not_first m.queue.cells inv.es x.0 a b task (owned (pc j)) x.1 (inv.held j) mine
                theirs);
          awake = λ on some_len.
              inl (got.posted ∙ posted-some x.0 got.world m.queue.bsem got.queue some_len);
        })

  pull_none-Jobs :
      (q : World)
      → pull_job m.queue ≡ ok (none, q)
      → Owner inv i pulling
      → Mover inv i pulling (calling none)
      → Jobs inv i (record m { queue = q }) (calling none)
  pull_none-Jobs q e o f =
      let is = live inv i (alive_of inv i f (omega arith)) in
      let x = fetched_none m.queue q inv.es is e in
      subst (λ w. Jobs inv i (record m { queue = w }) (calling none)) (sym x.1)
        (same_heap inv i _ o refl inv.queue (inl refl)
          (λ on some_len. absurd (omega (arith, is.counted, ap length x.0))))

  free-Jobs :
      (a : ℕ) (q : World)
      → free (some a) m.queue ≡ ok (tt, q)
      → Owner inv i (freeing a)
      → Mover inv i (freeing a) finishing
      → Jobs inv i (record m { queue = q }) finishing
  free-Jobs a q e o f =
      let is = live inv i (alive_of inv i f (omega arith)) in
      subst (λ w. Jobs inv i (record m { queue = w }) finishing) (sym (freed m.queue q a e))
        (record {
          es = inv.es;
          queue = IsQueue-QueueAt m.client inv.es _ (record {
            linked =
                Linked-update m.queue.cells a none m.queue.front m.queue.rear inv.es o.holds.2
                  is.linked;
            counted = is.counted;
            small = is.small;
            v = is.v;
            posted = is.posted;
            made = is.made;
          });
          held = held-kept inv i (update m.queue.cells a none) inv.es finishing tt (λ j ne.
              Held-other m.queue.cells inv.es a none (owned (pc j)) (o.alone a j refl ne)
                (inv.held j));
          apart = apart-kept inv i finishing (λ b j mine ne theirs. absurd (cc));
          awake = awake-kept inv i f (omega arith);
        })

  -- The job's function adds a task, or finds no memory.
  add_more-Jobs :
      (a : ℕ) (malloc garbage : Option ℕ) (task : Task) (code : ℤ) (q : World)
      → IsFresh malloc m.queue.cells
      → m.queue.len + 1 < 2 ^ 31
      → add_work malloc garbage task m.queue ≡ ok (code, q)
      → Owner inv i (freeing a)
      → Mover inv i (freeing a) (freeing a)
      → Jobs inv i (record m { queue = q; submitted = note code task m.submitted }) (freeing a)
  unfolding add_work
  add_more-Jobs a none garbage task code q fresh room e o f =
      let same : q ≡ m.queue = sym (ap (λ x. x.1) (same_ok e)) in
      subst
        (λ w.
          Jobs inv i (record m { queue = w; submitted = note code task m.submitted }) (freeing a))
        (sym same)
        (same_heap inv i _ o refl inv.queue (inr refl) (awake-kept inv i f (omega arith)))
  add_more-Jobs a (some b) garbage task code q fresh room e o f =
      let is = live inv i (alive_of inv i f (omega arith)) in
      let x =
        add_work-Added m.queue inv.es b garbage task is fresh (omega (arith, room, is.counted)) in
      let same : q ≡ x.world = sym (ap (λ y. y.1) (same_ok (sym x.run ∙ e))) in
      subst
        (λ w.
          Jobs inv i (record m { queue = w; submitted = note code task m.submitted }) (freeing a))
        (sym same)
        (record {
          es = inv.es ++ (b, task) ∷ [];
          queue = IsQueue-QueueAt m.client _ x.world x.queue;
          held =
              held-kept inv i x.world.cells (inv.es ++ (b, task) ∷ []) (freeing a)
                (Held-added m.queue inv.es b task _ (some a) fresh x o.holds)
                (λ j ne. Held-added m.queue inv.es b task _ (owned (pc j)) fresh x (inv.held j));
          apart = apart-kept inv i (freeing a) o.alone;
          awake = λ on some_len. inl x.woken;
        })

  QueueAt-done :
      (zero_left : Bool) → QueueAt (if zero_left then signal m.client else m.client) inv.es m.queue
  QueueAt-done true = QueueAt-signal inv i m.client inv.es m.queue inv.queue
  QueueAt-done false = inv.queue

  pub Work-Jobs :
      {p p' : Pc} {m' : Pool} → Work m p m' p' → Owner inv i p → Mover inv i p p' → Jobs inv i m' p'
  Work-Jobs (register l) o f =
      same_heap inv i _ o refl inv.queue (inl refl) (awake-kept inv i f (omega arith))
  Work-Jobs (test on) o f =
      same_heap inv i _ o refl inv.queue (inl refl) (awake-kept inv i f (omega arith))
  Work-Jobs (test_off off) o f =
      same_heap inv i _ o refl inv.queue (inl refl) (awake-kept inv i f (omega arith))
  Work-Jobs (take {q} e) o f = take-Jobs q e o f
  Work-Jobs (doze {q} e) o f =
      rest-Jobs q (slept_from m.queue q e) (omega arith) refl (omega arith) o f
  Work-Jobs (rouse early {q} e) o f =
      rest-Jobs q (woken_from early m.queue q e) (omega arith) refl (omega arith) o f
  Work-Jobs (retest on) o f =
      same_heap inv i _ o refl inv.queue (inl refl) (awake-kept inv i f (omega arith))
  Work-Jobs (retest_off off) o f = same_heap inv i _ o refl inv.queue (inl refl) (λ on. absurd (cc))
  Work-Jobs (enter l) o f =
      same_heap inv i _ o refl inv.queue (inl refl) (awake-kept inv i f (omega arith))
  Work-Jobs (pull_next a task {q} e) o f = pull-Jobs a task q e f
  Work-Jobs (pull_none {q} e) o f = pull_none-Jobs q e o f
  Work-Jobs (call a task) o f =
      same_heap inv i _ o refl inv.queue (inr refl) (awake-kept inv i f (omega arith))
  Work-Jobs (add_more a malloc garbage task {code} {q} fresh room e) o f =
      add_more-Jobs a malloc garbage task code q fresh room e o f
  Work-Jobs skip o f =
      same_heap inv i _ o refl inv.queue (inl refl) (awake-kept inv i f (omega arith))
  Work-Jobs (free_job a {q} e) o f = free-Jobs a q e o f
  Work-Jobs (finish l) o f =
      same_heap inv i _ o refl (QueueAt-done ((m.num_threads_working - 1) == 0)) (inl refl)
        (awake-kept inv i f (omega arith))
  Work-Jobs (quit l) o f =
      same_heap inv i _ o refl inv.queue (inl refl) (awake-kept inv i f (omega arith))
  Work-Jobs leave o f =
      same_heap inv i _ o refl inv.queue (inl refl) (awake-kept inv i f (omega arith))
