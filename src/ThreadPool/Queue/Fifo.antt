-- ===== src/ThreadPool/Queue/Fifo.antt =====
-- Submitting and running jobs of common/thpool.c in any order: first in, first out, each job once.
use c_playground.Prelude.{
  ℕ, ◌+◌, ◌^◌, ◌<◌, ◌≡◌, refl, sym, ap, ◌∙◌, Option, none, some, List, [], ◌∷◌, ◌++◌, arith, length,
  length-append, update, update-same, update-other, ◌≢◌, Option-cases, inl, inr,
}
use mathlib.Core.List.{append_assoc, append-nil}
use c_playground.Machine.{ℤ, pos, negsuc}
use c_playground.ThreadPool.Store.{Task, Job, World, Result, ok, Cmd, pure, ◌>>=◌}
use c_playground.ThreadPool.Queue.{add_work, run_pulled, run_job}
use c_playground.ThreadPool.Queue.Laws.{IsQueue, Signals, push-Pushed, pull-Pulled, pull-empty}
use c_playground.ThreadPool.Chain.{Entry, Off, Linked-update, free-Off}

-- What `thpool_add_work` leaves: 0, and the new job behind the others with the semaphore at 1.
pub record Added (es : List Entry) (task : Task) (a : ℕ) (w : World) (r : Result (ℤ × World))
    : Type 0 where
  pub world : World
  pub run : r ≡ ok (pos 0, world)
  pub queue : IsQueue (es ++ (a, task) ∷ []) world
  pub woken : world.bsem ≡ some 1
  pub signals : Signals w world
  pub untouched : (x : ℕ) → Off x es → x ≢ a → world.cells x ≡ w.cells x

-- With an unallocated address from `malloc`, `thpool_add_work` returns 0 and the task waits behind
-- all others, whatever lay in the new cell.
pub add_work-Added :
    (w : World) (es : List Entry) (a : ℕ) (garbage : Option ℕ) (task : Task)
    → IsQueue es w
    → w.cells a ≡ none
    → length es + 1 < 2 ^ 31
    → Added es task a w (add_work (some a) garbage task w)
unfolding add_work
add_work-Added w es a garbage task q empty room =
    let new : Job = record { prev = garbage; task = task } in
    let off = free-Off w.cells a w.front w.rear es empty q.linked in
    let ready : World = record w { cells = update w.cells a (some new) } in
    let q' : IsQueue es ready = record {
      linked = Linked-update w.cells a (some new) w.front w.rear es off q.linked;
      counted = q.counted;
      small = q.small;
      v = q.v;
      posted = q.posted;
      made = q.made;
    } in
    let p = push-Pushed ready es a new q' (update-same w.cells a (some new)) off room in
    record {
      world = p.world;
      run = rw p.run refl;
      queue = p.queue;
      woken = p.woken;
      signals = p.signals;
      untouched = λ x off' ne. p.untouched x off' ne ∙ update-other w.cells a (some new) x ne;
    }

-- What a job run leaves: the first task was called, its job is freed, the others still wait.
pub record Ran (e : Entry) (es : List Entry) (r : Result (Option Task × World)) : Type 0 where
  pub world : World
  pub run : r ≡ ok (some e.1, world)
  pub queue : IsQueue es world
  pub gone : world.cells e.0 ≡ none

-- A worker that finds jobs calls the task that waits longest and frees its job.
pub run_job-Ran :
    (w : World) (e : Entry) (es : List Entry) → IsQueue (e ∷ es) w → Ran e es (run_job w)
unfolding run_job run_pulled
run_job-Ran w e es q =
    let p = pull-Pulled w e es q in
    record {
      world = record p.world { cells = update p.world.cells e.0 none };
      run = ground (arith, p.run, p.same_heap, p.held.1);
      queue = record {
        linked =
            Linked-update p.world.cells e.0 none p.world.front p.world.rear es p.detached
              p.queue.linked;
        counted = p.queue.counted;
        small = p.queue.small;
        v = p.queue.v;
        posted = p.queue.posted;
        made = p.queue.made;
      };
      gone = update-same p.world.cells e.0 none;
    }

pub run_job-empty : (w : World) → IsQueue [] w → run_job w ≡ ok (none, w)
unfolding run_job run_pulled
run_job-empty w q = rw (pull-empty w q) refl

-- A call from outside: a client submits a task, or a worker runs what it pulls.
pub data Call : Type 0 where
  submit : Task → Call
  work : Call

-- What the calls did: submissions that returned 0, and the tasks that were called, in order.
pub record History : Type 0 where
  pub accepted : List Task
  pub called : List Task

abbrev accept : ℤ → Task → History → History
accept (pos n) task h = record h { accepted = task ∷ h.accepted }
accept (negsuc n) task h = h

abbrev call : Option Task → History → History
call none h = h
call (some task) h = record h { called = task ∷ h.called }

-- The calls in their order, each in one piece; `malloc` sees what is allocated.
pub serve : (malloc : (ℕ → Option Job) → Option ℕ) → (garbage : Option ℕ) → List Call → Cmd History
serve malloc garbage [] = pure (record { accepted = []; called = [] })
serve malloc garbage (submit task ∷ calls) = do
  code ← λ w. add_work (malloc w.cells) garbage task w
  h ← serve malloc garbage calls
  pure (accept code task h)
serve malloc garbage (work ∷ calls) = do
  ran ← run_job
  h ← serve malloc garbage calls
  pure (call ran h)

abbrev pub tasks : List Entry → List Task
tasks [] = []
tasks (e ∷ es) = e.1 ∷ tasks es

tasks-append : (es : List Entry) (e : Entry) → tasks (es ++ e ∷ []) ≡ tasks es ++ e.1 ∷ []
tasks-append [] e = refl
tasks-append (x ∷ es) e = ap (λ ts. x.1 ∷ ts) (tasks-append es e)

pub record InOrder (before : List Task) (r : Result (History × World)) : Type 0 where
  pub history : History
  pub world : World
  pub run : r ≡ ok (history, world)
  pub left : List Entry
  pub queue : IsQueue left world
  pub order : before ++ history.accepted ≡ history.called ++ tasks left

-- `malloc` returns NULL or an address where nothing is allocated.
abbrev pub IsMalloc : ((ℕ → Option Job) → Option ℕ) → Type 0
IsMalloc malloc = (cells : ℕ → Option Job) (a : ℕ) → malloc cells ≡ some a → cells a ≡ none

module _ (malloc : (ℕ → Option Job) → Option ℕ) (garbage : Option ℕ) (fresh : IsMalloc malloc) where
  serve-submit :
      (task : Task) (calls : List Call) (w x y : World) (code : ℤ) (h : History)
      → add_work (malloc w.cells) garbage task w ≡ ok (code, x)
      → serve malloc garbage calls x ≡ ok (h, y)
      → serve malloc garbage (submit task ∷ calls) w ≡ ok (accept code task h, y)
  unfolding serve
  serve-submit task calls w x y code h first rest = rw (first, rest) refl

  serve-work :
      (calls : List Call) (w x y : World) (ran : Option Task) (h : History)
      → run_job w ≡ ok (ran, x)
      → serve malloc garbage calls x ≡ ok (h, y)
      → serve malloc garbage (work ∷ calls) w ≡ ok (call ran h, y)
  unfolding serve
  serve-work calls w x y ran h first rest = rw (first, rest) refl

  serve-none :
      (w : World) → serve malloc garbage [] w ≡ ok (record { accepted = []; called = [] }, w)
  unfolding serve
  serve-none w = refl

  -- Any sequence of submissions and job runs, from any queue, is defined, and in order: the tasks
  -- that waited and then the accepted ones are the called ones and then those still waiting. No
  -- task is lost, called twice or overtaken.
  pub serve-InOrder :
      (calls : List Call) (w : World) (es : List Entry)
      → IsQueue es w
      → length es + length calls < 2 ^ 31
      → InOrder (tasks es) (serve malloc garbage calls w)
  unfolding add_work
  serve-InOrder [] w es q room = record {
    history = record { accepted = []; called = [] };
    world = w;
    run = serve-none w;
    left = es;
    queue = q;
    order = append-nil (tasks es);
  }
  serve-InOrder (submit task ∷ calls) w es q room = elim (Option-cases (malloc w.cells)) [
    | inl refused ↦
        let rest = serve-InOrder calls w es q (omega arith) in
        record {
          history = rest.history;
          world = rest.world;
          run =
              serve-submit task calls w w rest.world (negsuc 0) rest.history (rw refused refl)
                rest.run;
          left = rest.left;
          queue = rest.queue;
          order = rest.order;
        }
    | inr (a, got) ↦
        let add = add_work-Added w es a garbage task q (fresh w.cells a got) (omega arith) in
        let rest =
          serve-InOrder calls add.world (es ++ (a, task) ∷ []) add.queue
            (omega (arith, room, length-append es ((a, task) ∷ []))) in
        record {
          history = record rest.history { accepted = task ∷ rest.history.accepted };
          world = rest.world;
          run =
              serve-submit task calls w add.world rest.world (pos 0) rest.history (rw got add.run)
                rest.run;
          left = rest.left;
          queue = rest.queue;
          order =
              sym (append_assoc (tasks es) (task ∷ []) rest.history.accepted)
              ∙ ap (λ ts. ts ++ rest.history.accepted) (sym (tasks-append es (a, task)))
              ∙ rest.order;
        }
  ]
  serve-InOrder (work ∷ calls) w [] q room =
      let rest = serve-InOrder calls w [] q (omega arith) in
      record {
        history = rest.history;
        world = rest.world;
        run = serve-work calls w w rest.world none rest.history (run_job-empty w q) rest.run;
        left = rest.left;
        queue = rest.queue;
        order = rest.order;
      }
  serve-InOrder (work ∷ calls) w (e ∷ es) q room =
      let job = run_job-Ran w e es q in
      let rest = serve-InOrder calls job.world es job.queue (omega arith) in
      record {
        history = record rest.history { called = e.1 ∷ rest.history.called };
        world = rest.world;
        run = serve-work calls w job.world rest.world (some e.1) rest.history job.run rest.run;
        left = rest.left;
        queue = rest.queue;
        order = ap (λ ts. e.1 ∷ ts) rest.order;
      }
