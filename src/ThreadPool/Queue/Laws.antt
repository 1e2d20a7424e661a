-- ===== src/ThreadPool/Queue/Laws.antt =====
-- The job queue of common/thpool.c is a first-in first-out list of tasks.
use c_playground.Prelude.{
  ℕ, ◌+◌, ◌-◌, ◌^◌, ◌<◌, ◌≡◌, ◌≢◌, refl, sym, ◌∙◌, subst, ◌⊎◌, inl, inr, true, Option, none, some,
  List, [], ◌∷◌, ◌++◌, arith, length, length-append, update, update-same, update-other,
}
use c_playground.Machine.{pos}
use c_playground.ThreadPool.Store.{Job, World, Result, ok, bsem_init, bsem_post, one_of}
use c_playground.ThreadPool.Queue.{link, push, unlink, pull, init_queue}
use c_playground.ThreadPool.Chain.{Entry, Off, job, Linked, Linked-update, Linked-rear, Linked-snoc}

-- The queue holds these jobs, the first to be pulled first, and its semaphore exists and is initialized.
pub record IsQueue (es : List Entry) (w : World) : Type 0 where
  pub linked : Linked w.cells w.front w.rear es
  pub counted : w.len ≡ length es
  pub small : length es < 2 ^ 31
  pub v : ℕ
  pub posted : w.bsem ≡ some v
  pub made : w.initialized ≡ true

-- What a `bsem_post` does to the semaphore: one sleeper is let go, if there is any.
abbrev pub Signals : World → World → Type 0
Signals w q =
    (q.sleepers ≡ w.sleepers - 1)
    × (q.released ≡ w.released + one_of w.sleepers)
    × (q.bsem ≡ some 1)

-- The semaphore is as before, or was posted.
abbrev pub Effect : World → World → Type 0
Effect w q =
    ((q.sleepers ≡ w.sleepers) × (q.released ≡ w.released) × (q.bsem ≡ w.bsem)) ⊎ Signals w q

-- What a push leaves: the jobs with the new one behind them, `v` = 1, and all other cells as before.
pub record Pushed (es : List Entry) (new : Entry) (w : World) (r : Result (Unit {0} × World))
    : Type 0 where
  pub world : World
  pub run : r ≡ ok (tt, world)
  pub queue : IsQueue (es ++ new ∷ []) world
  pub woken : world.bsem ≡ some 1
  pub signals : Signals w world
  pub untouched : (x : ℕ) → Off x es → x ≢ new.0 → world.cells x ≡ w.cells x

-- `jobqueue_push` of an allocated job that is not in the queue puts it behind all others, through
-- `rear`, and sets the semaphore to 1.
pub push-Pushed :
    (w : World) (es : List Entry) (a : ℕ) (old : Job)
    → IsQueue es w
    → w.cells a ≡ some old
    → Off a es
    → length es + 1 < 2 ^ 31
    → Pushed es (a, old.task) w (push a w)
unfolding push link bsem_post
push-Pushed w [] a old q here off room = record {
  world = record w {
    cells = update w.cells a (some (job none old.task));
    front = some a;
    rear = some a;
    len = 1;
    bsem = some 1;
    sleepers = w.sleepers - 1;
    released = w.released + one_of w.sleepers;
  };
  run = ground (arith, q.counted, q.posted, here);
  queue = record {
    linked = (refl, update-same w.cells a (some (job none old.task)), refl);
    counted = refl;
    small = room;
    v = 1;
    posted = refl;
    made = q.made;
  };
  woken = refl;
  signals = (refl, refl, refl);
  untouched = λ x off' ne. update-other w.cells a (some (job none old.task)) x ne;
}
push-Pushed w (e ∷ es) a old q here off room =
    let last = Linked-rear w.cells w.front w.rear e es q.linked in
    let r = last.0 in
    let new = some (job none old.task) in
    let other : a ≢ r = last.4 a off in
    let cells = update w.cells a new in
    let still : cells r ≡ some (job none last.1) =
      update-other w.cells a new r (λ e. other (sym e)) ∙ last.3 in
    record {
      world = record w {
        cells = update cells r (some (job (some a) last.1));
        rear = some a;
        len = w.len + 1;
        bsem = some 1;
        sleepers = w.sleepers - 1;
        released = w.released + one_of w.sleepers;
      };
      run = ground (arith, q.counted, q.posted, here, last.2, last.3, other, still);
      queue = record {
        linked =
            Linked-snoc cells w.front r a last.1 old.task e es still (update-same w.cells a new) off
              (subst (λ z. Linked cells w.front z (e ∷ es)) last.2
                (Linked-update w.cells a new w.front w.rear (e ∷ es) off q.linked));
        counted = omega (arith, q.counted, length-append (e ∷ es) ((a, old.task) ∷ []));
        small = omega (arith, room, length-append (e ∷ es) ((a, old.task) ∷ []));
        v = 1;
        posted = refl;
        made = q.made;
      };
      woken = refl;
      signals = (refl, refl, refl);
      untouched =
          λ x off' ne. update-other cells r _ x (last.4 x off') ∙ update-other w.cells a new x ne;
    }

-- `bsem_post` while jobs are left.
abbrev pub posted_for : List Entry → Option ℕ → Option ℕ
posted_for [] v = v
posted_for (e ∷ es) v = some 1

-- What a pull leaves: the first job, still allocated, and the others in the queue, with `v` = 1 when
-- there are any.
pub record Pulled (e : Entry) (es : List Entry) (w : World) (r : Result (Option ℕ × World))
    : Type 0 where
  pub world : World
  pub run : r ≡ ok (some e.0, world)
  pub queue : IsQueue es world
  pub same_heap : world.cells ≡ w.cells
  pub detached : Off e.0 es
  pub held : (prev : Option ℕ) × (w.cells e.0 ≡ some (job prev e.1))
  pub woken : world.bsem ≡ posted_for es w.bsem
  pub effect : Effect w world

pub pull-empty : (w : World) → IsQueue [] w → pull w ≡ ok (none, w)
unfolding pull unlink
pull-empty w q = ground (arith, q.counted, q.linked.0)

-- `jobqueue_pull` takes the job that waits longest and leaves the others in order; the semaphore is
-- posted again exactly when jobs are left.
pub pull-Pulled :
    (w : World) (e : Entry) (es : List Entry) → IsQueue (e ∷ es) w → Pulled e es w (pull w)
unfolding pull unlink bsem_post
pull-Pulled w (a, t) [] q = record {
  world = record w { front = none; rear = none; len = 0 };
  run = ground (arith, q.counted, q.linked.0);
  queue = record {
    linked = (refl, refl);
    counted = refl;
    small = omega arith;
    v = q.v;
    posted = q.posted;
    made = q.made;
  };
  same_heap = refl;
  detached = tt;
  held = (none, q.linked.1);
  woken = refl;
  effect = inl (refl, refl, refl);
}
pull-Pulled w (a, t) ((b, u) ∷ es) q = record {
  world = record w {
    front = some b;
    len = w.len - 1;
    bsem = some 1;
    sleepers = w.sleepers - 1;
    released = w.released + one_of w.sleepers;
  };
  run = ground (arith, q.counted, q.posted, q.linked.0, q.linked.1);
  queue = record {
    linked = q.linked.3;
    counted = omega (arith, q.counted);
    small = omega (arith, q.small);
    v = 1;
    posted = refl;
    made = q.made;
  };
  same_heap = refl;
  detached = q.linked.2;
  held = (some b, q.linked.1);
  woken = refl;
  effect = inr (refl, refl, refl);
}

-- With memory for the semaphore, `jobqueue_init` returns 0 and leaves an empty queue with the
-- semaphore at 0.
pub init_queue-IsQueue :
    (w : World) (v : ℕ)
    → (init : World) × (init_queue true v w ≡ ok (pos 0, init))
      × IsQueue [] init
      × (init.bsem ≡ some 0)
unfolding init_queue bsem_init
init_queue-IsQueue w v = (
  record w {
    len = 0;
    front = none;
    rear = none;
    bsem = some 0;
    initialized = true;
    sleepers = 0;
    released = 0;
  },
  refl,
  record {
    linked = (refl, refl);
    counted = refl;
    small = omega arith;
    v = 0;
    posted = refl;
    made = refl;
  },
  refl,
)
