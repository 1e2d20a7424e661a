-- ===== src/ThreadPool/Workers/Places.antt =====
-- Places of the client and the workers of a pool, one by one.
use c_playground.Prelude.{
  ℕ, ◌+◌, ◌≤◌, ◌≡◌, ◌≢◌, refl, ap, ◌∙◌, Bool, true, Option, none, some, List, [], ◌∷◌, ◌++◌, arith,
}
use c_playground.Machine.{ℤ}
use c_playground.ThreadPool.Store.{Task, World, Result}
use c_playground.ThreadPool.Chain.{Entry, Off-snoc}
use c_playground.ThreadPool.Queue.Laws.{IsQueue}
use c_playground.ThreadPool.Queue.Fifo.{Added}
use c_playground.ThreadPool.Workers.{
  Pc, starting, testing, waiting, dozing, woken, entering, pulling, calling, freeing, finishing,
  quitting, leaving, exited, Client, idle, returned, may_call,
}
use c_playground.ThreadPool.Workers.Defs.{
  registered, unborn, busy, holds_client, running, owned, Held, ClientAt, QueueAt,
}

-- The job queue between two calls of the client.
pub record Ready (es : List Entry) (q : World) (cl : Client) (keep : Bool) (un : ℕ) : Type 0 where
  pub free : holds_client cl ≡ 0
  pub queue : IsQueue es q
  pub on : keep ≡ true
  pub born : un ≡ 0

pub may_call-Ready :
    (cl : Client) (es : List Entry) (q : World) (keep : Bool) (len work alive un car : ℕ)
    → may_call cl ≡ true
    → QueueAt cl es q
    → ClientAt cl keep len work alive un car
    → Ready es q cl keep un
may_call-Ready idle es q keep len work alive un car e is at = record {
  free = refl;
  queue = is;
  on = at.0;
  born = at.1;
}
may_call-Ready returned es q keep len work alive un car e is at = record {
  free = refl;
  queue = is;
  on = at.0;
  born = at.1;
}
may_call-Ready _ es q keep len work alive un car e is at = absurd (cc)

pub registered-unborn : (p : Pc) → registered p + unborn p ≤ 1
registered-unborn starting = omega arith
registered-unborn leaving = omega arith
registered-unborn exited = omega arith
registered-unborn testing = omega arith
registered-unborn waiting = omega arith
registered-unborn dozing = omega arith
registered-unborn woken = omega arith
registered-unborn entering = omega arith
registered-unborn pulling = omega arith
registered-unborn (calling _) = omega arith
registered-unborn (freeing _) = omega arith
registered-unborn finishing = omega arith
registered-unborn quitting = omega arith

pub running-busy : (p : Pc) → running p ≤ busy p
running-busy (calling (some e)) = omega arith
running-busy (calling none) = omega arith
running-busy (freeing a) = omega arith
running-busy _ = omega arith

pub retired-owned : (p : Pc) → registered p ≡ 0 → owned p ≡ none
retired-owned (calling (some e)) z = absurd (omega arith)
retired-owned (freeing a) z = absurd (omega arith)
retired-owned _ z = refl

-- An owned job keeps its place when another cell is filled and linked.
pub Held-added :
    (w : World) (es : List Entry) (a : ℕ) (task : Task) (code : Result (ℤ × World)) (o : Option ℕ)
    → w.cells a ≡ none
    → (x : Added es task a w code) → Held w.cells es o
    → Held x.world.cells (es ++ (a, task) ∷ []) o
Held-added w es a task code none empty x h = tt
Held-added w es a task code (some b) empty x h =
    let other : b ≢ a = λ e. absurd (let here = ap w.cells e in cc) in
    (h.0, x.untouched b h.2 other ∙ h.1, Off-snoc b a task es h.2 other)
