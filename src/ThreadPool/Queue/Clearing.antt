-- ===== src/ThreadPool/Queue/Clearing.antt =====
-- The loop of `jobqueue_clear` of common/thpool.c frees every waiting job and nothing else; the reset
-- behind it is undefined.
use c_playground.Prelude.{
  ℕ, suc, ◌≡◌, refl, ap, ◌∙◌, true, Option, none, List, [], ◌∷◌, arith, length, update, update-same,
  update-other,
}
use c_playground.ThreadPool.Store.{Job, World, Result, ok, undefined, bsem_init, bsem_reset}
use c_playground.ThreadPool.Queue.{drain, clear}
use c_playground.ThreadPool.Queue.Laws.{IsQueue, pull-Pulled}
use c_playground.ThreadPool.Chain.{Entry, Off, Linked-update}

abbrev pub AllFreed : (ℕ → Option Job) → List Entry → Type 0
AllFreed cells [] = Unit
AllFreed cells (e ∷ es) = (cells e.0 ≡ none) × AllFreed cells es

-- What emptying the queue leaves: every waiting job freed, every other cell as it was.
pub record Emptied (es : List Entry) (w : World) (r : Result (Unit {0} × World)) : Type 0 where
  pub world : World
  pub run : r ≡ ok (tt, world)
  pub queue : IsQueue [] world
  pub freed : AllFreed world.cells es
  pub untouched : (a : ℕ) → Off a es → world.cells a ≡ w.cells a

-- One round of the loop: the first job is pulled and freed.
module _ (w : World) (e : Entry) (es : List Entry) (q : IsQueue (e ∷ es) w) where
  next : World
  next = let p = pull-Pulled w e es q in record p.world { cells = update p.world.cells e.0 none }

  next-IsQueue : IsQueue es next
  unfolding next
  next-IsQueue =
      let p = pull-Pulled w e es q in
      record {
        linked =
            Linked-update p.world.cells e.0 none p.world.front p.world.rear es p.detached
              p.queue.linked;
        counted = p.queue.counted;
        small = p.queue.small;
        v = p.queue.v;
        posted = p.queue.posted;
        made = p.queue.made;
      }

  next-cells : next.cells ≡ update w.cells e.0 none
  unfolding next
  next-cells = let p = pull-Pulled w e es q in ap (λ c. update c e.0 none) p.same_heap

  drain-next : (n : ℕ) → drain (suc n) w ≡ drain n next
  unfolding drain next
  drain-next n =
      let p = pull-Pulled w e es q in ground (arith, q.counted, p.run, p.same_heap, p.held.1)

drain-Emptied : (es : List Entry) (w : World) → IsQueue es w → Emptied es w (drain (length es) w)
unfolding drain
drain-Emptied [] w q = record {
  world = w;
  run = ground (arith, q.counted);
  queue = q;
  freed = tt;
  untouched = λ a off. refl;
}
drain-Emptied (e ∷ es) w q =
    let rest = drain-Emptied es (next w e es q) (next-IsQueue w e es q) in
    let cells = next-cells w e es q in
    record {
      world = rest.world;
      run = drain-next w e es q (length es) ∙ rest.run;
      queue = rest.queue;
      freed = (
        rest.untouched e.0 (pull-Pulled w e es q).detached
            ∙ ap (λ c. c e.0) cells
            ∙ update-same w.cells e.0 none,
        rest.freed,
      );
      untouched = λ a off.
          rest.untouched a off.1 ∙ ap (λ c. c a) cells ∙ update-other w.cells e.0 none a off.0;
    }

clear-run : (w x : World) → drain w.len w ≡ ok (tt, x) → x.initialized ≡ true → clear w ≡ undefined
unfolding clear bsem_reset bsem_init
clear-run w x run made = ground (arith, run, made)

-- The loop of `jobqueue_clear` on a queue of any length ends behind as many rounds as there are jobs,
-- without undefined behaviour: the queue is empty, every waiting job is freed, and no other cell is
-- touched. The `bsem_reset` behind the loop then initializes the mutex of the semaphore a second time,
-- so that `jobqueue_clear` as a whole is undefined.
pub clear-Drained :
    (w : World) (es : List Entry)
    → IsQueue es w
    → Emptied es w (drain w.len w) × (clear w ≡ undefined)
clear-Drained w es q =
    let rounds = ap (λ n. drain n w) q.counted in
    let drained = drain-Emptied es w q in
    let run = rounds ∙ drained.run in
    (
      record {
        world = drained.world;
        run = run;
        queue = drained.queue;
        freed = drained.freed;
        untouched = drained.untouched;
      },
      clear-run w drained.world run drained.queue.made,
    )
