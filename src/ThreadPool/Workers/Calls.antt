-- ===== src/ThreadPool/Workers/Calls.antt =====
-- The steps of the client keep the invariant of a pool; so every reachable state has it.
use c_playground.Prelude.{
  ℕ, ◌+◌, ◌^◌, ◌≤◌, ◌<◌, ◌≡◌, refl, sym, ap, subst, ◌∙◌, Bool, true, false, Option, none, some,
  List, [], ◌∷◌, ◌++◌, arith, total, total_mono, total-add-le, total-const_zero, le-total, ◌⊎◌, inl,
  dec_lt,
}
use c_playground.Machine.{ℤ}
use c_playground.ThreadPool.Store.{Task, World, ok, bsem_post_all, cond_broadcast}
use c_playground.ThreadPool.Chain.{Entry}
use c_playground.ThreadPool.Queue.{add_work}
use c_playground.ThreadPool.Queue.Laws.{IsQueue}
use c_playground.ThreadPool.Queue.Taking.{with_v, with_rest, same_ok}
use c_playground.ThreadPool.Queue.Fifo.{add_work-Added}
use c_playground.ThreadPool.Workers.{
  Pc, starting, Client, spinning, idle, test_len, test_working, asleep, signalled, unlocking,
  returned, checking, posting, cleaning, destroyed, Pool, Setup, System, may_call, note, IsFresh,
  Act, ready, submit, lock, see_len, jobs_wait, see_working, jobs_run, wake, spurious, unlock, stop,
  check_dead, check_alive, post_all, clean, by_worker, by_client, init, Reach, start, later,
}
use c_playground.ThreadPool.Workers.Defs.{
  registered, unborn, busy, holds, holds_client, eager, gone, running, owned, Held, ClientAt,
  QueueAt, Inv,
}
use c_playground.ThreadPool.Workers.Invariant.{Work-Inv}
use c_playground.ThreadPool.Workers.Places.{
  Ready, may_call-Ready, registered-unborn, running-busy, retired-owned, Held-added,
}

module _ {c : Setup} {m : Pool} {pc : ℕ → Pc} (inv : Inv c m pc) where
  -- The client moves, with the lock and the flag; the rest stays.
  moves :
      (cl : Client) (free : ℕ) (keep : Bool)
      → free + total holds c.workers pc + holds_client cl ≡ 1
      → QueueAt cl inv.es m.queue
      → (keep ≡ true → m.threads_keepalive ≡ true)
      → ClientAt cl keep m.queue.len m.num_threads_working m.num_threads_alive
          (total unborn c.workers pc)
          (total running c.workers pc)
      → Inv c (record m { thcount_lock = free; client = cl; threads_keepalive = keep }) pc
  moves cl free keep token queue on at = record {
    asked = inv.asked;
    alive = inv.alive;
    working = inv.working;
    token = token;
    outside = inv.outside;
    es = inv.es;
    queue = queue;
    held = inv.held;
    apart = inv.apart;
    awake = λ e. inv.awake (on e);
    staying = λ e. inv.staying (on e);
    at = at;
  }

  pub called_from :
      may_call m.client ≡ true
      → Ready inv.es m.queue m.client m.threads_keepalive (total unborn c.workers pc)
  called_from e = may_call-Ready m.client inv.es m.queue _ _ _ _ _ _ e inv.queue inv.at

  -- A known place of the client.
  pub at_client :
      (cl : Client)
      → m.client ≡ cl
      → ClientAt cl m.threads_keepalive m.queue.len m.num_threads_working m.num_threads_alive
          (total unborn c.workers pc)
          (total running c.workers pc)
  at_client cl e =
      subst
        (λ k.
          ClientAt k m.threads_keepalive m.queue.len m.num_threads_working m.num_threads_alive
            (total unborn c.workers pc) (total running c.workers pc))
        e inv.at

  pub queue_client : (cl : Client) → m.client ≡ cl → QueueAt cl inv.es m.queue
  queue_client cl e = subst (λ k. QueueAt k inv.es m.queue) e inv.queue

  token_client :
      (cl : Client)
      → m.client ≡ cl
      → m.thcount_lock + total holds c.workers pc + holds_client cl ≡ 1
  token_client cl e =
      subst (λ k. m.thcount_lock + total holds c.workers pc + holds_client k ≡ 1) e inv.token

  -- Work on the queue by the client.
  requeue :
      (cl : Client) (q : World) (es : List Entry) (tasks : List Task)
      → holds_client cl ≡ holds_client m.client
      → QueueAt cl es q
      → ((i : ℕ) → Held q.cells es (owned (pc i)))
      → (m.threads_keepalive ≡ true
          → 0 < q.len
          → (q.bsem ≡ some 1) ⊎ (0 < total eager c.workers pc))
      → ClientAt cl m.threads_keepalive q.len m.num_threads_working m.num_threads_alive
          (total unborn c.workers pc)
          (total running c.workers pc)
      → Inv c (record m { queue = q; client = cl; submitted = tasks }) pc
  requeue cl q es tasks same queue held awake at = record {
    asked = inv.asked;
    alive = inv.alive;
    working = inv.working;
    token = omega (arith, inv.token, same);
    outside = inv.outside;
    es = es;
    queue = queue;
    held = held;
    apart = inv.apart;
    awake = awake;
    staying = inv.staying;
    at = at;
  }

  submit-Inv :
      (malloc garbage : Option ℕ) (task : Task) (code : ℤ) (q : World)
      → may_call m.client ≡ true
      → IsFresh malloc m.queue.cells
      → m.queue.len + 1 < 2 ^ 31
      → add_work malloc garbage task m.queue ≡ ok (code, q)
      → Inv c (record m { queue = q; client = idle; submitted = note code task m.submitted }) pc
  unfolding add_work
  submit-Inv none garbage task code q may fresh room run =
      let r = called_from may in
      let same : q ≡ m.queue = sym (ap (λ x. x.1) (same_ok run)) in
      subst
        (λ w.
          Inv c (record m { queue = w; client = idle; submitted = note code task m.submitted }) pc)
        (sym same)
        (requeue idle m.queue inv.es (note code task m.submitted) (sym r.free) r.queue inv.held
          inv.awake (r.on, r.born))
  submit-Inv (some a) garbage task code q may fresh room run =
      let r = called_from may in
      let x =
        add_work-Added m.queue inv.es a garbage task r.queue fresh
          (omega (arith, room, r.queue.counted)) in
      let same : q ≡ x.world = sym (ap (λ y. y.1) (same_ok (sym x.run ∙ run))) in
      subst
        (λ w.
          Inv c (record m { queue = w; client = idle; submitted = note code task m.submitted }) pc)
        (sym same)
        (requeue idle x.world (inv.es ++ (a, task) ∷ []) (note code task m.submitted) (sym r.free)
          x.queue (λ i. Held-added m.queue inv.es a task _ (owned (pc i)) fresh x (inv.held i))
          (λ on some_len. inl x.woken) (r.on, r.born))

  post_all-Inv :
      (q : World)
      → m.client ≡ posting
      → bsem_post_all m.queue ≡ ok (tt, q)
      → Inv c (record m { queue = q; client = checking }) pc
  unfolding bsem_post_all
  post_all-Inv q e run =
      let is = queue_client posting e in
      let at = at_client posting e in
      let same : q ≡ record (cond_broadcast m.queue) { bsem = some 1 } =
        ground (arith, is.posted) in
      subst (λ w. Inv c (record m { queue = w; client = checking }) pc) (sym same)
        (requeue checking (record (cond_broadcast m.queue) { bsem = some 1 }) inv.es m.submitted
          (rw e refl)
          (with_rest (record m.queue { bsem = some 1 }) inv.es _ _ (with_v m.queue inv.es 1 is))
          inv.held (λ on some_len. inl refl) at)

  -- Behind the loops of `thpool_destroy` nobody owns a job.
  retired : (i : ℕ) → m.num_threads_alive ≡ 0 → owned (pc i) ≡ none
  retired i dead = elim (dec_lt i c.workers) [
    | yes lt ↦
        retired-owned (pc i) (omega (arith, dead, inv.alive, le-total registered c.workers pc i lt))
    | no out ↦ rw (inv.outside i (omega arith)) refl
  ]

  clean-Inv :
      (q : World) → m.client ≡ cleaning → Inv c (record m { queue = q; client = destroyed }) pc
  clean-Inv q e =
      let at = at_client cleaning e in
      requeue destroyed q [] m.submitted (rw e refl) tt (λ i. rw (retired i at.2) tt)
        (λ on some_len. absurd (let off = at.0 in cc)) at

  all_born : m.num_threads_alive ≡ c.num_threads → total unborn c.workers pc ≡ 0
  all_born e = omega (
    arith,
    e,
    inv.alive,
    inv.asked,
    total-add-le registered unborn registered-unborn c.workers pc,
  )

  Act-Inv : {m' : Pool} → Act c.num_threads m m' → Inv c m' pc
  Act-Inv (ready e all) =
      moves idle m.thcount_lock m.threads_keepalive (token_client spinning e)
        (queue_client spinning e) (λ on. on) (at_client spinning e, all_born all)
  Act-Inv (submit malloc garbage task {code} {q} may fresh room run) =
      submit-Inv malloc garbage task code q may fresh room run
  Act-Inv (lock may free) =
      let r = called_from may in
      moves test_len 0 m.threads_keepalive (omega (arith, inv.token, free, r.free)) r.queue
        (λ on. on) (r.on, r.born)
  Act-Inv (see_len e z) =
      moves test_working m.thcount_lock m.threads_keepalive (token_client test_len e)
        (queue_client test_len e) (λ on. on) (let at = at_client test_len e in (at.0, at.1, inl z))
  Act-Inv (jobs_wait e some_len) =
      let at = at_client test_len e in
      moves asleep 1 m.threads_keepalive (omega (arith, token_client test_len e))
        (queue_client test_len e) (λ on. on) (at.0, at.1, omega arith)
  Act-Inv (see_working e z) =
      let at = at_client test_working e in
      moves unlocking m.thcount_lock m.threads_keepalive (token_client test_working e)
        (queue_client test_working e) (λ on. on)
        (
          at.0,
          at.1,
          omega (arith, at.2, z),
          omega (arith, z, inv.working, total_mono running busy running-busy c.workers pc),
        )
  Act-Inv (jobs_run e some_work) =
      let at = at_client test_working e in
      moves asleep 1 m.threads_keepalive (omega (arith, token_client test_working e))
        (queue_client test_working e) (λ on. on) (at.0, at.1, omega arith)
  Act-Inv (wake e free) =
      let at = at_client signalled e in
      moves test_len 0 m.threads_keepalive (omega (arith, token_client signalled e, free))
        (queue_client signalled e) (λ on. on) at
  Act-Inv (spurious e) =
      let at = at_client asleep e in
      moves signalled m.thcount_lock m.threads_keepalive (token_client asleep e)
        (queue_client asleep e) (λ on. on) (at.0, at.1)
  Act-Inv (unlock e) =
      moves returned 1 m.threads_keepalive (omega (arith, token_client unlocking e))
        (queue_client unlocking e) (λ on. on) (at_client unlocking e)
  Act-Inv (stop may) =
      let r = called_from may in
      moves checking m.thcount_lock false (omega (arith, inv.token, r.free)) r.queue
        (λ on. absurd (cc)) (refl, r.born)
  Act-Inv (check_dead e dead) =
      let at = at_client checking e in
      moves cleaning m.thcount_lock m.threads_keepalive (token_client checking e)
        (queue_client checking e) (λ on. on) (at.0, at.1, dead)
  Act-Inv (check_alive e some_alive) =
      moves posting m.thcount_lock m.threads_keepalive (token_client checking e)
        (queue_client checking e) (λ on. on) (at_client checking e)
  Act-Inv (post_all {q} e run) = post_all-Inv q e run
  Act-Inv (clean {q} e run) = clean-Inv q e

-- A pool is made with a fresh queue, and never has more workers than it was asked for.
pub record IsMade (c : Setup) (queue : World) : Type 0 where
  pub asked : c.workers ≤ c.num_threads
  pub empty : IsQueue [] queue

init-Inv : {c : Setup} {queue : World} → IsMade c queue → Inv c (init queue).pool (λ _. starting)
init-Inv {c} made = record {
  asked = made.asked;
  alive = sym (total-const_zero registered c.workers (λ _. starting) (λ i lt. refl));
  working = sym (total-const_zero busy c.workers (λ _. starting) (λ i lt. refl));
  token = omega (arith, total-const_zero holds c.workers (λ _. starting) (λ i lt. refl));
  outside = λ i le. refl;
  es = [];
  queue = made.empty;
  held = λ i. tt;
  apart = λ i j a e. absurd (cc);
  awake = λ on some_len. absurd (omega (arith, some_len, made.empty.counted));
  staying = λ on. total-const_zero gone c.workers (λ _. starting) (λ i lt. refl);
  at = refl;
}

pub Reach-Inv :
    {c : Setup} {queue : World} {s : System} → IsMade c queue → Reach c queue s → Inv c s.pool s.pc
Reach-Inv made start = init-Inv made
Reach-Inv made (later r (by_worker i lt w)) = Work-Inv (Reach-Inv made r) i lt w
Reach-Inv made (later r (by_client a)) = Act-Inv (Reach-Inv made r) a
