-- ===== src/ThreadPool/Workers/Moves.antt =====
-- The counts of a pool after a step of one worker.
use c_playground.Prelude.{
  ℕ, ◌+◌, ◌≤◌, ◌<◌, ◌≡◌, ◌⊎◌, refl, Bool, true, arith, update, total, total-update, le-total,
}
use c_playground.ThreadPool.Workers.{
  Pc, Client, spinning, idle, test_len, test_working, asleep, signalled, unlocking, returned,
  checking, posting, cleaning, destroyed, Pool, Setup, signal, Work, register, test, test_off, take,
  doze, rouse, retest, retest_off, enter, pull_next, pull_none, call, add_more, skip, free_job,
  finish, quit, leave,
}
use c_playground.ThreadPool.Workers.Defs.{
  registered, unborn, busy, holds, holds_client, eager, gone, running, ClientAt, Inv,
}

-- How the counts of `ClientAt` may move under the client's feet.
pub record Drift (held len work alive un jobs len' work' alive' un' jobs' : ℕ) : Type 0 where
  pub some_left : 0 < len + work → 0 < len' + work'
  pub tested : held ≡ 1 → (len ≡ 0) ⊎ (0 < work) → (len' ≡ 0) ⊎ (0 < work')
  pub empty : len ≡ 0 → jobs ≡ 0 → len' ≡ 0
  pub dead : un ≡ 0 → alive ≡ 0 → alive' ≡ 0
  pub born : un ≡ 0 → un' ≡ 0
  pub done : len ≡ 0 → jobs ≡ 0 → jobs' ≡ 0

pub ClientAt-drift :
    (c : Client) (keep : Bool) (len work alive un car len' work' alive' un' car' : ℕ)
    → Drift (holds_client c) len work alive un car len' work' alive' un' car'
    → ClientAt c keep len work alive un car
    → ClientAt c keep len' work' alive' un' car'
ClientAt-drift spinning _ _ _ _ _ _ _ _ _ _ _ d at = at
ClientAt-drift idle _ _ _ _ _ _ _ _ _ _ _ d at = (at.0, d.born at.1)
ClientAt-drift test_len _ _ _ _ _ _ _ _ _ _ _ d at = (at.0, d.born at.1)
ClientAt-drift signalled _ _ _ _ _ _ _ _ _ _ _ d at = (at.0, d.born at.1)
ClientAt-drift asleep _ _ _ _ _ _ _ _ _ _ _ d at = (at.0, d.born at.1, d.some_left at.2)
ClientAt-drift test_working _ _ _ _ _ _ _ _ _ _ _ d at = (at.0, d.born at.1, d.tested refl at.2)
ClientAt-drift unlocking _ _ _ _ _ _ _ _ _ _ _ d at =
    (at.0, d.born at.1, d.empty at.2 at.3, d.done at.2 at.3)
ClientAt-drift returned _ _ _ _ _ _ _ _ _ _ _ d at =
    (at.0, d.born at.1, d.empty at.2 at.3, d.done at.2 at.3)
ClientAt-drift checking _ _ _ _ _ _ _ _ _ _ _ d at = (at.0, d.born at.1)
ClientAt-drift posting _ _ _ _ _ _ _ _ _ _ _ d at = (at.0, d.born at.1)
ClientAt-drift cleaning _ _ _ _ _ _ _ _ _ _ _ d at = (at.0, d.born at.1, d.dead at.1 at.2)
ClientAt-drift destroyed _ _ _ _ _ _ _ _ _ _ _ d at = (at.0, d.born at.1, d.dead at.1 at.2)

-- A signal only sends a sleeper back to its test.
pub signal-ClientAt :
    (c : Client) (keep : Bool) (len work alive un car : ℕ) (work' : ℕ)
    → holds_client c ≡ 0
    → ClientAt c keep len work alive un car
    → ClientAt (signal c) keep len work' alive un car
signal-ClientAt asleep _ _ _ _ _ _ work' z at = (at.0, at.1)
signal-ClientAt spinning _ _ _ _ _ _ work' z at = at
signal-ClientAt idle _ _ _ _ _ _ work' z at = at
signal-ClientAt test_len _ _ _ _ _ _ work' z at = at
signal-ClientAt signalled _ _ _ _ _ _ work' z at = at
signal-ClientAt test_working _ _ _ _ _ _ work' z at = absurd (omega arith)
signal-ClientAt unlocking _ _ _ _ _ _ work' z at = at
signal-ClientAt returned _ _ _ _ _ _ work' z at = at
signal-ClientAt checking _ _ _ _ _ _ work' z at = at
signal-ClientAt posting _ _ _ _ _ _ work' z at = at
signal-ClientAt cleaning _ _ _ _ _ _ work' z at = at
signal-ClientAt destroyed _ _ _ _ _ _ work' z at = at

pub holds_client-signal : (c : Client) → holds_client (signal c) ≡ holds_client c
holds_client-signal asleep = refl
holds_client-signal spinning = refl
holds_client-signal idle = refl
holds_client-signal test_len = refl
holds_client-signal signalled = refl
holds_client-signal test_working = refl
holds_client-signal unlocking = refl
holds_client-signal returned = refl
holds_client-signal checking = refl
holds_client-signal posting = refl
holds_client-signal cleaning = refl
holds_client-signal destroyed = refl

module _ {c : Setup} {m : Pool} {pc : ℕ → Pc} (inv : Inv c m pc) (i : ℕ) where
  abbrev n : ℕ
  n = c.workers

  -- Worker `i` goes from `p` to `p'`.
  pub record Mover (p p' : Pc) : Type 0 where
    pub inside : i < n
    pub alive_count :
        total registered n (update pc i p') + registered p ≡ total registered n pc + registered p'
    pub busy_count : total busy n (update pc i p') + busy p ≡ total busy n pc + busy p'
    pub holds_count : total holds n (update pc i p') + holds p ≡ total holds n pc + holds p'
    pub unborn_count : total unborn n (update pc i p') + unborn p ≡ total unborn n pc + unborn p'
    pub eager_count : total eager n (update pc i p') + eager p ≡ total eager n pc + eager p'
    pub gone_count : total gone n (update pc i p') + gone p ≡ total gone n pc + gone p'
    pub running_count :
        total running n (update pc i p') + running p ≡ total running n pc + running p'
    pub own_alive : registered p ≤ total registered n pc
    pub own_busy : busy p ≤ total busy n pc
    pub own_holds : holds p ≤ total holds n pc
    pub own_unborn : unborn p ≤ total unborn n pc
    pub own_gone : gone p ≤ total gone n pc
    pub own_running : running p ≤ total running n pc

  pub mover : i < n → (p' : Pc) → Mover (pc i) p'
  mover lt p' = record {
    inside = lt;
    alive_count = total-update registered n pc i p' lt;
    busy_count = total-update busy n pc i p' lt;
    holds_count = total-update holds n pc i p' lt;
    unborn_count = total-update unborn n pc i p' lt;
    eager_count = total-update eager n pc i p' lt;
    gone_count = total-update gone n pc i p' lt;
    running_count = total-update running n pc i p' lt;
    own_alive = le-total registered n pc i lt;
    own_busy = le-total busy n pc i lt;
    own_holds = le-total holds n pc i lt;
    own_unborn = le-total unborn n pc i lt;
    own_gone = le-total gone n pc i lt;
    own_running = le-total running n pc i lt;
  }

  pub record Counts (m' : Pool) (p' : Pc) : Type 0 where
    pub alive : m'.num_threads_alive ≡ total registered n (update pc i p')
    pub working : m'.num_threads_working ≡ total busy n (update pc i p')
    pub token : m'.thcount_lock + total holds n (update pc i p') + holds_client m'.client ≡ 1
    pub staying : m'.threads_keepalive ≡ true → total gone n (update pc i p') ≡ 0

  pub Work-Counts : {p p' : Pc} {m' : Pool} → Work m p m' p' → Mover p p' → Counts m' p'
  Work-Counts (register l) f = ground arith
  Work-Counts (test on) f = ground arith
  Work-Counts (test_off off) f = ground arith
  Work-Counts (take e) f = ground arith
  Work-Counts (doze e) f = ground arith
  Work-Counts (rouse early e) f = ground arith
  Work-Counts (retest on) f = ground arith
  Work-Counts (retest_off off) f = ground arith
  Work-Counts (enter l) f = ground arith
  Work-Counts (pull_next a task e) f = ground arith
  Work-Counts (pull_none e) f = ground arith
  Work-Counts (call a task) f = ground arith
  Work-Counts (add_more a malloc garbage task fresh room e) f = ground arith
  Work-Counts skip f = ground arith
  Work-Counts (free_job a e) f = ground arith
  Work-Counts (finish l) f = ground (arith, holds_client-signal m.client)
  Work-Counts (quit l) f = ground arith
  Work-Counts leave f = ground arith
