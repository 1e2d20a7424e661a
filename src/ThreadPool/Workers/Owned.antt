-- ===== src/ThreadPool/Workers/Owned.antt =====
-- The queue and the jobs that workers own, behind one step.
use c_playground.Prelude.{
  ℕ, ◌<◌, ◌≡◌, ◌≢◌, refl, ap, subst, ◌∙◌, Option, none, some, List, [], ◌∷◌, arith, update,
  update-other, Bool,
}
use c_playground.ThreadPool.Store.{Task, Job, World}
use c_playground.ThreadPool.Chain.{Entry, Off}
use c_playground.ThreadPool.Queue.Laws.{IsQueue, posted_for}
use c_playground.ThreadPool.Workers.{
  Client, spinning, idle, test_len, test_working, asleep, signalled, unlocking, returned, checking,
  posting, cleaning, destroyed,
}
use c_playground.ThreadPool.Workers.Defs.{Held, ClientAt, QueueAt}

-- The queue is there until the pool is destroyed.
pub QueueAt-there :
    (c : Client) (es : List Entry) (q : World) → c ≢ destroyed → QueueAt c es q → IsQueue es q
QueueAt-there destroyed es q alive is = absurd (alive refl)
QueueAt-there spinning es q alive is = is
QueueAt-there idle es q alive is = is
QueueAt-there test_len es q alive is = is
QueueAt-there signalled es q alive is = is
QueueAt-there asleep es q alive is = is
QueueAt-there test_working es q alive is = is
QueueAt-there unlocking es q alive is = is
QueueAt-there returned es q alive is = is
QueueAt-there checking es q alive is = is
QueueAt-there posting es q alive is = is
QueueAt-there cleaning es q alive is = is

-- So while a worker is registered.
pub QueueAt-live :
    (c : Client) (es : List Entry) (q : World) (keep : Bool) (len work alive un car : ℕ)
    → ClientAt c keep len work alive un car
    → 0 < alive
    → QueueAt c es q
    → IsQueue es q
QueueAt-live c es q keep len work alive un car at some_alive is =
    QueueAt-there c es q
      (λ e.
        let dead = subst (λ k. ClientAt k keep len work alive un car) e at in
        omega (arith, dead.2, some_alive))
      is

pub IsQueue-QueueAt : (c : Client) (es : List Entry) (q : World) → IsQueue es q → QueueAt c es q
IsQueue-QueueAt destroyed es q is = tt
IsQueue-QueueAt spinning es q is = is
IsQueue-QueueAt idle es q is = is
IsQueue-QueueAt test_len es q is = is
IsQueue-QueueAt signalled es q is = is
IsQueue-QueueAt asleep es q is = is
IsQueue-QueueAt test_working es q is = is
IsQueue-QueueAt unlocking es q is = is
IsQueue-QueueAt returned es q is = is
IsQueue-QueueAt checking es q is = is
IsQueue-QueueAt posting es q is = is
IsQueue-QueueAt cleaning es q is = is

-- A chain that lost its first job, on the same heap.
pub Held-tail :
    (cells cells' : ℕ → Option Job) (es rest : List Entry) (e : Entry) (o : Option ℕ)
    → cells' ≡ cells
    → es ≡ e ∷ rest
    → Held cells es o
    → Held cells' rest o
Held-tail cells cells' es rest e none same split h = tt
Held-tail cells cells' es rest e (some a) same split h =
    (h.0, ap (λ (f : ℕ → Option Job). f a) same ∙ h.1, (subst (Off a) split h.2).1)

pub Held-other :
    (cells : ℕ → Option Job) (es : List Entry) (a : ℕ) (new : Option Job) (o : Option ℕ)
    → (o ≡ some a → ⊥)
    → Held cells es o
    → Held (update cells a new) es o
Held-other cells es a new none ne h = tt
Held-other cells es a new (some x) ne h =
    (h.0, update-other cells a new x (λ e. ne (ap some e)) ∙ h.1, h.2)

-- The first waiting job is owned by nobody.
pub not_first :
    (cells : ℕ → Option Job) (es rest : List Entry) (a b : ℕ) (task : Task) (o : Option ℕ)
    → es ≡ (a, task) ∷ rest
    → Held cells es o
    → some a ≡ some b
    → o ≡ some b
    → ⊥
not_first cells es rest a b task none split h mine theirs = cc
not_first cells es rest a b task (some x) split h mine theirs = (subst (Off x) split h.2).0 (cc)

pub posted-some :
    (es : List Entry) (w : World) (v : Option ℕ)
    → IsQueue es w
    → 0 < w.len
    → posted_for es v ≡ some 1
posted-some [] w v is some_len = absurd (omega (arith, is.counted))
posted-some (e ∷ es) w v is some_len = refl
