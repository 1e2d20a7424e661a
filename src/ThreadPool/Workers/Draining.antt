-- ===== src/ThreadPool/Workers/Draining.antt =====
-- How many steps the workers of a pool can make, by what is left for them to do.
use c_playground.Prelude.{
  ℕ, zero, suc, true, false, inl, inr, subst, ◌+◌, ◌*◌, ◌≤◌, ◌<◌, ◌≡◌, sym, ap, ◌∙◌, Option, none,
  some, arith, update, total, total-update, total_bound,
}
use c_playground.ThreadPool.Store.{World, one_of}
use c_playground.ThreadPool.Queue.Laws.{Effect}
use c_playground.ThreadPool.Workers.Sleepers.{
  add_work-Effect, slept-facts, woken-facts, early-facts,
}
use c_playground.ThreadPool.Queue.Taking.{taken_from, fetched, fetched_none, freed}
use c_playground.ThreadPool.Workers.{
  Pc, starting, testing, waiting, dozing, woken, entering, pulling, calling, freeing, finishing,
  quitting, leaving, exited, Pool, Setup, System, Work, register, test, test_off, take, doze, rouse,
  retest, retest_off, enter, pull_next, pull_none, call, add_more, skip, free_job, finish, quit,
  leave, Reach, later, by_worker,
}
use c_playground.ThreadPool.Workers.Defs.{Inv}
use c_playground.ThreadPool.Workers.Moves.{Mover, mover}
use c_playground.ThreadPool.Workers.Invariant.{queue_here, added_len}
use c_playground.ThreadPool.Workers.Calls.{IsMade, Reach-Inv}

-- How far a worker is from its next `bsem_wait`, or from its end.
abbrev pub rank : Pc → ℕ
rank starting = 6
rank testing = 5
rank waiting = 4
rank dozing = 3
rank woken = 11
rank entering = 10
rank pulling = 9
rank (calling _) = 8
rank (freeing _) = 7
rank finishing = 6
rank quitting = 3
rank leaving = 2
rank exited = 1

-- 1 when the semaphore lets a worker through.
abbrev pub posted : Option ℕ → ℕ
posted (some (suc v)) = 1
posted _ = 0

-- What is left for `n` workers.
abbrev pub left : ℕ → Pool → (ℕ → Pc) → ℕ
left n m pc = 11 * m.queue.len + 8 * posted m.queue.bsem + 2 * m.queue.released + total rank n pc

-- 1 for a job's own call of `thpool_add_work`.
abbrev pub added : {m m' : Pool} {p p' : Pc} → Work m p m' p' → ℕ
added (add_more _ _ _ _ _ _ _) = 1
added _ = 0

-- 1 for a spurious wake-up.
abbrev pub early : {m m' : Pool} {p p' : Pc} → Work m p m' p' → ℕ
early (rouse true e) = 1
early _ = 0

one_of-le : (s : ℕ) → one_of s ≤ 1
one_of-le zero = omega arith
one_of-le (suc s) = omega arith

-- One worker is let go at most.
Effect-released : (w q : World) → Effect w q → q.released ≤ w.released + 1
Effect-released w q (inl (s, r, b)) = omega (arith, r)
Effect-released w q (inr (s, r, b)) = omega (arith, r, one_of-le w.sleepers)

posted-le-one : (b : Option ℕ) → posted b ≤ 1
posted-le-one none = omega arith
posted-le-one (some (suc v)) = omega arith
posted-le-one (some _) = omega arith

module _ {c : Setup} {m : Pool} {pc : ℕ → Pc} (inv : Inv c m pc) (i : ℕ) where
  -- A step takes something off what is left, unless it adds a job or is a spurious wake-up.
  Work-left :
      {p p' : Pc} {m' : Pool} (w : Work m p m' p')
      → Mover inv i p p'
      → total rank c.workers (update pc i p') + rank p ≡ total rank c.workers pc + rank p'
      → left c.workers m' (update pc i p') + 1 ≤ left c.workers m pc + 22 * added w + 2 * early w
  Work-left (register l) f sum = omega arith
  Work-left (test on) f sum = omega arith
  Work-left (test_off off) f sum = omega arith
  Work-left (take {q} e) f sum =
      let t = taken_from m.queue q e in
      let v = ap posted t.0 in
      let len = ap (λ (w : World). w.len) t.1 in
      let v' = ap (λ (w : World). posted w.bsem) t.1 in
      let same = ap (λ (w : World). w.released) t.1 in omega (arith, v, len, v', same)
  Work-left (doze {q} e) f sum =
      let t = (slept-facts m.queue q e).1 in
      let len = ap (λ (w : World). w.len) t in
      let v = ap (λ (w : World). posted w.bsem) t in
      let same = ap (λ (w : World). w.released) t in omega (arith, len, v, same)
  Work-left (rouse false {q} e) f sum =
      let t = woken-facts m.queue q e in
      let len = ap (λ (w : World). w.len) t.1 in
      let v = ap (λ (w : World). posted w.bsem) t.1 in
      let less = ap (λ (w : World). w.released) t.1 in omega (arith, len, v, less, t.0)
  Work-left (rouse true {q} e) f sum =
      let t = (early-facts m.queue q e).1 in
      let len = ap (λ (w : World). w.len) t in
      let v = ap (λ (w : World). posted w.bsem) t in
      let same = ap (λ (w : World). w.released) t in omega (arith, len, v, same)
  Work-left (retest on) f sum = omega arith
  Work-left (retest_off off) f sum = omega arith
  Work-left (enter l) f sum = omega arith
  Work-left (pull_next a task {q} e) f sum =
      let x = fetched m.queue q inv.es (a, task) (queue_here inv i f (omega arith)) e in
      let len : m.queue.len ≡ q.len + 1 = x.2.shorter ∙ ap (λ (w : World). w.len + 1) (sym x.3) in
      let most =
        subst (λ w. w.released ≤ m.queue.released + 1) (sym x.3)
          (Effect-released m.queue x.2.world x.2.effect) in
      omega (arith, len, posted-le-one q.bsem, most)
  Work-left (pull_none {q} e) f sum =
      let same = (fetched_none m.queue q inv.es (queue_here inv i f (omega arith)) e).1 in
      let len = ap (λ (w : World). w.len) same in
      let v = ap (λ (w : World). posted w.bsem) same in
      let r = ap (λ (w : World). w.released) same in omega (arith, len, v, r)
  Work-left (call a task) f sum = omega arith
  Work-left (add_more a malloc garbage task {code} {q} fresh room e) f sum =
      let len =
        added_len inv i malloc garbage task (queue_here inv i f (omega arith)) fresh room e in
      let most = Effect-released m.queue q (
        add_work-Effect m.queue inv.es malloc garbage task (queue_here inv i f (omega arith)) fresh
          room e) in
      omega (arith, len, posted-le-one q.bsem, most)
  Work-left skip f sum = omega arith
  Work-left (free_job a {q} e) f sum =
      let same = freed m.queue q a e in
      let len = ap (λ (w : World). w.len) same in
      let v = ap (λ (w : World). posted w.bsem) same in
      let r = ap (λ (w : World). w.released) same in omega (arith, len, v, r)
  Work-left (finish l) f sum = omega arith
  Work-left (quit l) f sum = omega arith
  Work-left leave f sum = omega arith

-- Steps of the workers alone.
pub data Working (c : Setup) (s : System) : System → Type 0 where
  none_yet : Working c s s
  one_more :
      {t : System}
      → Working c s t
      → (i : ℕ) {m : Pool} {p : Pc} → i < c.workers
      → Work t.pool (t.pc i) m p
      → Working c s (record { pool = m; pc = update t.pc i p })

module _ {c : Setup} {s : System} where
  abbrev pub moves : {t : System} → Working c s t → ℕ
  moves none_yet = 0
  moves (one_more r i lt w) = moves r + 1

  abbrev pub adds : {t : System} → Working c s t → ℕ
  adds none_yet = 0
  adds (one_more r i lt w) = adds r + added w

  abbrev pub earlies : {t : System} → Working c s t → ℕ
  earlies none_yet = 0
  earlies (one_more r i lt w) = earlies r + early w

  pub Working-Reach :
      {queue : World} {t : System} → Working c s t → Reach c queue s → Reach c queue t
  Working-Reach none_yet reach = reach
  Working-Reach (one_more r i lt w) reach = later (Working-Reach r reach) (by_worker i lt w)

  pub Working-left :
      {queue : World} {t : System} (made : IsMade c queue) (reach : Reach c queue s)
      (r : Working c s t)
      → left c.workers t.pool t.pc + moves r
        ≤ left c.workers s.pool s.pc + 22 * adds r + 2 * earlies r
  Working-left made reach none_yet = omega arith
  Working-left made reach (one_more {t} r i {m} {p} lt w) =
      let inv = Reach-Inv made (Working-Reach r reach) in
      let step = Work-left inv i w (mover inv i lt p) (total-update rank c.workers t.pc i p lt) in
      omega (arith, step, Working-left made reach r)

rank_most : (p : Pc) → rank p ≤ 11
rank_most starting = omega arith
rank_most _ = omega arith

pub left_most :
    (n : ℕ) (m : Pool) (pc : ℕ → Pc)
    → left n m pc ≤ 11 * m.queue.len + 8 + 2 * m.queue.released + 11 * n
left_most n m pc = omega (arith, posted-le-one m.queue.bsem, total_bound rank 11 rank_most n pc)
