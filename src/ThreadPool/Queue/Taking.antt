-- ===== src/ThreadPool/Queue/Taking.antt =====
-- What one worker's steps of common/thpool.c do to the job queue.
use c_playground.Prelude.{
  ℕ, ◌+◌, ◌-◌, ◌≡◌, refl, sym, ap, ◌∙◌, subst, Bool, true, false, Option, none, some, List, [], ◌∷◌,
  arith, update,
}
use c_playground.ThreadPool.Store.{Job, World, ok, free, bsem_wait, bsem_sleep, bsem_wake}
use c_playground.ThreadPool.Chain.{Entry, Off, job}
use c_playground.ThreadPool.Queue.{pull_job}
use c_playground.ThreadPool.Queue.Laws.{IsQueue, pull-Pulled, pull-empty, posted_for, Effect}

pub taken_from :
    (w q : World) → bsem_wait w ≡ some q → (w.bsem ≡ some 1) × (q ≡ record w { bsem = some 0 })
unfolding bsem_wait
taken_from w q e = ground arith

-- A new value of the semaphore.
pub with_v :
    (w : World) (es : List Entry) (v : ℕ) → IsQueue es w → IsQueue es (record w { bsem = some v })
with_v w es v q = record {
  linked = q.linked;
  counted = q.counted;
  small = q.small;
  v = v;
  posted = refl;
  made = q.made;
}

-- Other counts of sleepers.
pub with_rest :
    (w : World) (es : List Entry) (s r : ℕ)
    → IsQueue es w
    → IsQueue es (record w { sleepers = s; released = r })
with_rest w es s r q = record {
  linked = q.linked;
  counted = q.counted;
  small = q.small;
  v = q.v;
  posted = q.posted;
  made = q.made;
}

-- What differs when a worker has gone to sleep, or has woken up.
abbrev pub Rested : World → World → Type 0
Rested w q = (s : ℕ) × (r : ℕ) × (q ≡ record w { sleepers = s; released = r })

pub slept_from : (w q : World) → bsem_sleep w ≡ some q → Rested w q
unfolding bsem_sleep
slept_from w q e = (w.sleepers + 1, w.released, ground arith)

pub woken_from : (spurious : Bool) (w q : World) → bsem_wake spurious w ≡ some q → Rested w q
unfolding bsem_wake
woken_from false w q e = (w.sleepers, w.released - 1, ground arith)
woken_from true w q e = (w.sleepers - 1, w.released, ground arith)

-- What a worker gets that finds jobs.
pub record Fetched (e : Entry) (es : List Entry) (w : World) : Type 0 where
  pub world : World
  pub run : pull_job w ≡ ok (some e, world)
  pub queue : IsQueue es world
  pub same_heap : world.cells ≡ w.cells
  pub detached : Off e.0 es
  pub old : Job
  pub held : world.cells e.0 ≡ some old
  pub shorter : w.len ≡ world.len + 1
  pub posted : world.bsem ≡ posted_for es w.bsem
  pub effect : Effect w world

pub pull_job-Fetched :
    (w : World) (e : Entry) (es : List Entry) → IsQueue (e ∷ es) w → Fetched e es w
unfolding pull_job
pull_job-Fetched w (a, t) es q =
    let p = pull-Pulled w (a, t) es q in
    let here = ap (λ (c : ℕ → Option Job). c a) p.same_heap ∙ p.held.1 in
    record {
      world = p.world;
      run = ground (arith, p.run, here);
      queue = p.queue;
      same_heap = p.same_heap;
      detached = p.detached;
      old = job p.held.0 t;
      held = here;
      shorter = omega (arith, q.counted, p.queue.counted);
      posted = p.woken;
      effect = p.effect;
    }

pub pull_job-empty : (w : World) → IsQueue [] w → pull_job w ≡ ok (none, w)
unfolding pull_job
pull_job-empty w q = rw (pull-empty w q) refl

pub same_ok : {A : Type 0} {a b : A} → ok a ≡ ok b → a ≡ b
same_ok e = cc

same_some : {A : Type 0} {a b : A} → some a ≡ some b → a ≡ b
same_some e = cc

-- Two results of the same pull.
same_pull :
    (w q q' : World) (o o' : Option Entry)
    → pull_job w ≡ ok (o, q)
    → pull_job w ≡ ok (o', q')
    → (o ≡ o') × (q ≡ q')
same_pull w q q' o o' e e' =
    let same = same_ok (sym e ∙ e') in (ap (λ r. r.0) same, ap (λ r. r.1) same)

-- A pull that returns a job took the first one.
pub fetched :
    (w q : World) (es : List Entry) (e : Entry)
    → IsQueue es w
    → pull_job w ≡ ok (some e, q)
    → (rest : List Entry) × (es ≡ e ∷ rest) × (f : Fetched e rest w) × (q ≡ f.world)
fetched w q [] e is run = absurd (let e' = (same_pull _ _ _ _ _ (pull_job-empty w is) run).0 in cc)
fetched w q (x ∷ rest) e is run =
    let f = pull_job-Fetched w x rest is in
    let same = same_pull _ _ _ _ _ f.run run in
    subst (λ y. (es : List Entry) × (x ∷ rest ≡ y ∷ es) × (f' : Fetched y es w) × (q ≡ f'.world))
      (same_some same.0) (rest, refl, f, sym same.1)

pub fetched_none :
    (w q : World) (es : List Entry) → IsQueue es w → pull_job w ≡ ok (none, q) → (es ≡ []) × (q ≡ w)
fetched_none w q [] is run = (refl, sym (same_pull _ _ _ _ _ (pull_job-empty w is) run).1)
fetched_none w q (x ∷ rest) is run =
    absurd (let e' = (same_pull _ _ _ _ _ (pull_job-Fetched w x rest is).run run).0 in cc)

pub freed :
    (w q : World) (a : ℕ)
    → free (some a) w ≡ ok (tt, q)
    → q ≡ record w { cells = update w.cells a none }
freed w q a run = ground arith
