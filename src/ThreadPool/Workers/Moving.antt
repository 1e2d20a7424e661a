-- ===== src/ThreadPool/Workers/Moving.antt =====
-- What the workers of a pool do where they follow pointers, place by place.
use c_playground.Prelude.{
  ℕ, ◌+◌, ◌^◌, ◌≤◌, ◌<◌, ◌≡◌, refl, sym, ap, ◌∙◌, Option, none, some, List, [], ◌∷◌, arith, update,
  total-add-le, ◌⊎◌, inl, inr, length,
}
use c_playground.ThreadPool.Store.{Task, World, ok, undefined, free}
use c_playground.ThreadPool.Chain.{Entry}
use c_playground.ThreadPool.Queue.{pull_job, add_work, clear, destroy_queue}
use c_playground.ThreadPool.Queue.Fifo.{add_work-Added}
use c_playground.Machine.{ℤ, pos, negsuc}
use c_playground.ThreadPool.Queue.Laws.{IsQueue}
use c_playground.ThreadPool.Queue.Taking.{pull_job-Fetched, pull_job-empty}
use c_playground.ThreadPool.Workers.{
  Pc, starting, testing, waiting, dozing, woken, entering, pulling, calling, freeing, finishing,
  quitting, leaving, exited, spinning, Pool, Setup, System, Act, ready, submit, lock, see_len,
  jobs_wait, see_working, jobs_run, wake, spurious, unlock, stop, check_dead, check_alive, post_all,
  clean, may_call, IsFresh, by_worker, by_client, Reach, start, later,
}
use c_playground.ThreadPool.Workers.Defs.{
  registered, unborn, holds, gone, carried, running, owned, Held, Inv,
}
use c_playground.ThreadPool.Workers.Calls.{IsMade, Reach-Inv}
use c_playground.ThreadPool.Workers.Places.{registered-unborn}
use c_playground.ThreadPool.Workers.Tally.{Work-same}
use c_playground.ThreadPool.Workers.Weights.{weigh_waiting}

pub pull_defined :
    (w : World) (es : List Entry)
    → IsQueue es w
    → (o : Option Entry) × (q : World) × (pull_job w ≡ ok (o, q))
pull_defined w [] is = (none, w, pull_job-empty w is)
pull_defined w (e ∷ es) is = let f = pull_job-Fetched w e es is in (some e, f.world, f.run)

pub free_defined :
    (w : World) (es : List Entry) (a : ℕ)
    → Held w.cells es (some a)
    → (q : World) × (free (some a) w ≡ ok (tt, q))
free_defined w es a held =
    let here = held.1 in (record w { cells = update w.cells a none }, rw here refl)

-- `thpool_add_work` is defined, for every allocator, while the queue has room.
abbrev pub Adds : World → Type 0
Adds w =
    (malloc garbage : Option ℕ) (task : Task)
    → IsFresh malloc w.cells
    → w.len + 1 < 2 ^ 31
    → (code : ℤ) × (q : World) × (add_work malloc garbage task w ≡ ok (code, q))

pub add_defined : (w : World) (es : List Entry) → IsQueue es w → Adds w
unfolding add_work
add_defined w es is none garbage task fresh room = (negsuc 0, w, refl)
add_defined w es is (some a) garbage task fresh room =
    let x = add_work-Added w es a garbage task is fresh (omega (arith, room, is.counted)) in
    (pos 0, x.world, x.run)

-- Where `thread_do` or a job's own `thpool_add_work` follows a pointer, the job there is allocated.
abbrev pub Defined : World → Pc → Type 0
Defined w pulling = (o : Option Entry) × (q : World) × (pull_job w ≡ ok (o, q))
Defined w (freeing a) = ((q : World) × (free (some a) w ≡ ok (tt, q))) × Adds w
Defined w _ = Unit

pub at-Defined :
    (w : World) (es : List Entry) (p : Pc)
    → (0 < registered p → IsQueue es w)
    → Held w.cells es (owned p)
    → Defined w p
at-Defined w es pulling is held = pull_defined w es (is (omega arith))
at-Defined w es (freeing a) is held =
    (free_defined w es a held, add_defined w es (is (omega arith)))
at-Defined w es starting is held = tt
at-Defined w es testing is held = tt
at-Defined w es waiting is held = tt
at-Defined w es dozing is held = tt
at-Defined w es woken is held = tt
at-Defined w es entering is held = tt
at-Defined w es (calling o) is held = tt
at-Defined w es finishing is held = tt
at-Defined w es quitting is held = tt
at-Defined w es leaving is held = tt
at-Defined w es exited is held = tt

pub carried_none : (f : Task → ℕ) (p : Pc) → running p ≡ 0 → carried f p ≡ 0
carried_none f (calling (some e)) z = absurd (omega arith)
carried_none f (calling none) z = refl
carried_none f _ z = refl

pub weigh_empty : (f : Task → ℕ) (es : List Entry) → length es ≡ 0 → weigh_waiting f es ≡ 0
weigh_empty f [] z = refl
weigh_empty f (e ∷ es) z = absurd (omega arith)

pub holds_gone : (p : Pc) → holds p ≤ gone p
holds_gone leaving = omega arith
holds_gone quitting = omega arith
holds_gone exited = omega arith
holds_gone _ = omega arith

pub counted_out : (p : Pc) → registered p ≡ 0 → unborn p ≡ 0 → (p ≡ leaving) ⊎ (p ≡ exited)
counted_out leaving z z' = inl refl
counted_out exited z z' = inr refl
counted_out starting z z' = absurd (omega arith)
counted_out _ z z' = absurd (omega arith)

pub destroy_undefined : (w : World) → clear w ≡ undefined → destroy_queue w ≡ undefined
unfolding destroy_queue
destroy_undefined w e = rw e refl

-- `num_threads_alive` cannot reach `num_threads`.
module _ {c : Setup} {queue : World} (made : IsMade c queue) (lt : c.workers < c.num_threads) where
  Act-spins :
      {m m' : Pool} {pc : ℕ → Pc}
      → Inv c m pc
      → m.client ≡ spinning
      → Act c.num_threads m m'
      → m'.client ≡ spinning
  Act-spins {pc = pc} inv e (ready e' all) = absurd (
      omega
        (arith, all, lt, inv.alive, total-add-le registered unborn registered-unborn c.workers pc))
  Act-spins inv e (submit malloc garbage task may fresh room run) =
      absurd (let no = sym (ap may_call e) ∙ may in cc)
  Act-spins inv e (lock may l) = absurd (let no = sym (ap may_call e) ∙ may in cc)
  Act-spins inv e (see_len e' z) = absurd (cc)
  Act-spins inv e (jobs_wait e' z) = absurd (cc)
  Act-spins inv e (see_working e' z) = absurd (cc)
  Act-spins inv e (jobs_run e' z) = absurd (cc)
  Act-spins inv e (wake e' z) = absurd (cc)
  Act-spins inv e (spurious e') = absurd (cc)
  Act-spins inv e (unlock e') = absurd (cc)
  Act-spins inv e (stop may) = absurd (let no = sym (ap may_call e) ∙ may in cc)
  Act-spins inv e (check_dead e' z) = absurd (cc)
  Act-spins inv e (check_alive e' z) = absurd (cc)
  Act-spins inv e (post_all e' run) = absurd (cc)
  Act-spins inv e (clean e' run) = absurd (cc)

  pub spins : {s : System} → Reach c queue s → s.pool.client ≡ spinning
  spins start = refl
  spins (later r (by_worker i lt w)) = Work-same spinning refl w (spins r)
  spins (later r (by_client a)) = Act-spins (Reach-Inv made r) (spins r) a
