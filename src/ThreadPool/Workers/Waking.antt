-- ===== src/ThreadPool/Workers/Waking.antt =====
-- That the sleep of `thpool_wait` ends, and that no post of the semaphore is lost.
use c_playground.Prelude.{
  ℕ, ◌+◌, ◌-◌, ◌*◌, ◌≤◌, ◌<◌, ◌≡◌, refl, ap, true, false, Option, none, some, List, arith, total,
  total_mono, total_bound, le-total, pos_entry, ◌⊎◌, inl, inr, dec_lt,
}
use c_playground.ThreadPool.Store.{World, ok, bsem_wait, bsem_wake}
use c_playground.ThreadPool.Chain.{Entry}
use c_playground.ThreadPool.Queue.{pull_job}
use c_playground.ThreadPool.Queue.Laws.{IsQueue}
use c_playground.ThreadPool.Workers.{
  Pc, starting, testing, waiting, dozing, woken, entering, pulling, calling, freeing, finishing,
  quitting, leaving, exited, asleep, Pool, Setup, System, Work, register, test, take, rouse, retest,
  enter, pull_next, pull_none, call, skip, free_job, finish, Reach,
}
use c_playground.ThreadPool.Workers.Defs.{busy, holds, holds_client, eager, gone, owned, Held}
use c_playground.ThreadPool.Workers.Calls.{IsMade, Reach-Inv, at_client, queue_client}
use c_playground.ThreadPool.Workers.Moving.{pull_defined, free_defined, holds_gone}
use c_playground.ThreadPool.Workers.Sleepers.{dozes, tests, Reach-Heard}
use c_playground.ThreadPool.Workers.Draining.{
  early, Working, moves, adds, earlies, Working-Reach, Working-left, left_most,
}

-- A step from `p` that is no spurious wake-up.
abbrev pub Goes : Pool → Pc → Type 0
Goes m p = (m' : Pool) × (p' : Pc) × (w : Work m p m' p') × (early w ≡ 0)

-- Some worker can go on without a spurious wake-up.
abbrev pub GoesOn : Setup → System → Type 0
GoesOn c s = (i : ℕ) × (i < c.workers) × Goes s.pool (s.pc i)

pull_move :
    (m : Pool) → (o : Option Entry) × (q : World) × (pull_job m.queue ≡ ok (o, q)) → Goes m pulling
pull_move m (none, q, run) = (_, _, pull_none run, refl)
pull_move m (some (a, task), q, run) = (_, _, pull_next a task run, refl)

take_move : (m : Pool) → m.queue.bsem ≡ some 1 → Goes m waiting
unfolding bsem_wait
take_move m v = (_, _, take {q = record m.queue { bsem = some 0 }} (rw v refl), refl)

rouse_move : (m : Pool) → 0 < m.queue.released → Goes m dozing
unfolding bsem_wake
rouse_move m some_released = (
  _,
  _,
  rouse false {q = record m.queue { released = m.queue.released - 1 }}
      (ground (arith, some_released)),
  refl,
)

-- A worker that a flag of 1, a free lock and the semaphore let go on.
can_move :
    (m : Pool) (es : List Entry) (p : Pc)
    → m.thcount_lock ≡ 1
    → m.threads_keepalive ≡ true
    → IsQueue es m.queue
    → Held m.queue.cells es (owned p)
    → gone p ≡ 0
    → (0 < tests p → m.queue.bsem ≡ some 1)
    → (0 < dozes p → 0 < m.queue.released)
    → Goes m p
can_move m es starting free_lock on is held stays v r = (_, _, register free_lock, refl)
can_move m es testing free_lock on is held stays v r = (_, _, test on, refl)
can_move m es waiting free_lock on is held stays v r = take_move m (v (omega arith))
can_move m es dozing free_lock on is held stays v r = rouse_move m (r (omega arith))
can_move m es woken free_lock on is held stays v r = (_, _, retest on, refl)
can_move m es entering free_lock on is held stays v r = (_, _, enter free_lock, refl)
can_move m es pulling free_lock on is held stays v r = pull_move m (pull_defined m.queue es is)
can_move m es (calling none) free_lock on is held stays v r = (_, _, skip, refl)
can_move m es (calling (some (a, task))) free_lock on is held stays v r = (_, _, call a task, refl)
can_move m es (freeing a) free_lock on is held stays v r =
    let f = free_defined m.queue es a held in (_, _, free_job a f.1, refl)
can_move m es finishing free_lock on is held stays v r = (_, _, finish free_lock, refl)
can_move m es quitting free_lock on is held stays v r = absurd (omega arith)
can_move m es leaving free_lock on is held stays v r = absurd (omega arith)
can_move m es exited free_lock on is held stays v r = absurd (omega arith)

-- A worker with a job, or on the way to one, is not at the semaphore.
elsewhere : (p : Pc) → 0 < eager p + busy p → (tests p ≡ 0) × (dozes p ≡ 0)
elsewhere waiting some_weight = absurd (omega arith)
elsewhere dozing some_weight = absurd (omega arith)
elsewhere _ some_weight = (refl, refl)

apart_tests : (p : Pc) → 0 < tests p → dozes p ≡ 0
apart_tests waiting _ = refl
apart_tests dozing some_weight = absurd (omega arith)
apart_tests _ some_weight = refl

apart_dozes : (p : Pc) → 0 < dozes p → tests p ≡ 0
apart_dozes dozing _ = refl
apart_dozes waiting some_weight = absurd (omega arith)
apart_dozes _ some_weight = refl

dozes_most : (p : Pc) → dozes p ≤ 1
dozes_most dozing = omega arith
dozes_most _ = omega arith

module _ {c : Setup} {queue : World} {s : System} (made : IsMade c queue)
    (none_sleeps : queue.sleepers ≡ 0) (none_released : queue.released ≡ 0) (r : Reach c queue s)
    (e : s.pool.client ≡ asleep) (some_workers : 0 < c.workers) where
  goes :
      (i : ℕ)
      → i < c.workers
      → (0 < tests (s.pc i) → s.pool.queue.bsem ≡ some 1)
      → (0 < dozes (s.pc i) → 0 < s.pool.queue.released)
      → GoesOn c s
  goes i lt v rel =
      let inv = Reach-Inv made r in
      let at = at_client inv asleep e in
      let stays = inv.staying at.0 in
      let unlocked : s.pool.thcount_lock ≡ 1 = omega (
        arith,
        inv.token,
        ap holds_client e,
        stays,
        total_mono holds gone holds_gone c.workers s.pc,
      ) in
      (
        i,
        lt,
        can_move s.pool inv.es (s.pc i) unlocked at.0 (queue_client inv asleep e) (inv.held i)
            (omega (arith, stays, le-total gone c.workers s.pc i lt)) v rel,
      )

  -- A worker that has a job, or is on the way to one.
  from_weight :
      (f : Pc → ℕ) → ((p : Pc) → f p ≤ eager p + busy p) → 0 < total f c.workers s.pc → GoesOn c s
  from_weight f below some_weight = elim (pos_entry f c.workers s.pc) [
    | inl z ↦ absurd (omega (arith, z, some_weight))
    | inr (i, lt, p) ↦
        let away = elsewhere (s.pc i) (omega (arith, p, below (s.pc i))) in
        goes i lt (λ t. absurd (omega (arith, t, away.0))) (λ d. absurd (omega (arith, d, away.1)))
  ]

  -- The semaphore is posted, and nobody is let go.
  from_post : s.pool.queue.bsem ≡ some 1 → s.pool.queue.released ≡ 0 → GoesOn c s
  from_post v z =
      let h = Reach-Heard made none_sleeps none_released r in
      elim (pos_entry tests c.workers s.pc) [
        | inr (i, lt, p) ↦
            goes i lt (λ _. v) (λ d. absurd (omega (arith, d, apart_tests (s.pc i) p)))
        | inl no_tests ↦ elim (dec_lt 0 s.pool.queue.sleepers) [
          | yes some_sleep ↦ absurd (let w = h.woken v some_sleep in omega (arith, w, z, no_tests))
          | no none_sleep ↦
              goes 0 some_workers (λ _. v)
                (λ d. absurd (
                  omega (
                    arith,
                    d,
                    h.count,
                    z,
                    none_sleep,
                    le-total dozes c.workers s.pc 0 some_workers,
                  )))
        ]
      ]

  served : GoesOn c s
  served =
      let inv = Reach-Inv made r in
      let at = at_client inv asleep e in
      let h = Reach-Heard made none_sleeps none_released r in
      elim (dec_lt 0 s.pool.queue.released) [
        | yes some_released ↦ elim (pos_entry dozes c.workers s.pc) [
          | inl z ↦ absurd (omega (arith, z, h.count, some_released))
          | inr (i, lt, p) ↦
              goes i lt (λ t. absurd (omega (arith, t, apart_dozes (s.pc i) p)))
                (λ _. some_released)
        ]
        | no none_released ↦ elim (dec_lt 0 s.pool.queue.len) [
          | yes some_len ↦ elim (inv.awake at.0 some_len) [
            | inl v ↦ from_post v (omega (arith, none_released))
            | inr some_eager ↦ from_weight eager (λ p. omega arith) some_eager
          ]
          | no z ↦ from_weight busy (λ p. omega arith) (omega (arith, z, at.2, inv.working))
        ]
      ]

-- A pool whose semaphore nobody waits on when it is made, and that has a worker: while the client
-- sleeps in `thpool_wait`, however the workers interleave, they have made at most 11 steps for each job
-- that waited, 13 for each worker, 22 for each job that a job has added, 2 for each spurious wake-up,
-- and 8; and some worker can go on without a spurious wake-up, also when all workers but those that
-- were signalled sleep in `bsem_wait`. So the sleep ends when the jobs return.
pub wait_ends :
    {c : Setup} {queue : World} {s t : System}
    → IsMade c queue
    → queue.sleepers ≡ 0
    → queue.released ≡ 0
    → Reach c queue s
    → 0 < c.workers
    → (r : Working c s t) → t.pool.client ≡ asleep
    → (moves r ≤ 11 * s.pool.queue.len + 13 * c.workers + 22 * adds r + 2 * earlies r + 8)
      × GoesOn c t
wait_ends {c} {s = s} made z z' reach some_workers r e =
    let h = Reach-Heard made z z' reach in
    (
      omega (
        arith,
        Working-left made reach r,
        left_most c.workers s.pool s.pc,
        h.count,
        total_bound dozes 1 dozes_most c.workers s.pc,
      ),
      served made z z' (Working-Reach r reach) e some_workers,
    )

-- A pool whose semaphore nobody waits on when it is made, in any reachable state in which the semaphore
-- is posted: the workers in `pthread_cond_wait` are those that sleep and those that were let go, and
-- unless none sleeps, some worker was let go or is before its test of `v`, so that no post is lost.
pub no_post_lost :
    {c : Setup} {queue : World} {s : System}
    → IsMade c queue
    → queue.sleepers ≡ 0
    → queue.released ≡ 0
    → Reach c queue s
    → s.pool.queue.bsem ≡ some 1
    → (s.pool.queue.sleepers + s.pool.queue.released ≡ total dozes c.workers s.pc)
      × ((s.pool.queue.sleepers ≡ 0) ⊎ (0 < s.pool.queue.released + total tests c.workers s.pc))
no_post_lost {s = s} made z z' r v =
    let h = Reach-Heard made z z' r in
    (
      h.count,
      elim (dec_lt 0 s.pool.queue.sleepers) [
        | yes some_sleep ↦ inr (h.woken v some_sleep)
        | no none_sleep ↦ inl (omega (arith, none_sleep))
      ],
    )
