-- ===== src/ThreadPool/Store.antt =====
-- What the job queue of common/thpool.c lives in: heap cells, the queue's fields, and commands on
-- them that may be undefined.
use c_playground.Prelude.{
  ℕ, zero, suc, ◌+◌, ◌-◌, ◌^◌, Bool, true, false, Option, none, some, ltb, ◌==◌, if◌then◌else◌,
  update,
}
use c_playground.Machine.{ℤ, pos, negsuc}

-- What `thpool_add_work` is given: a function pointer and its argument, as addresses.
pub record Task : Type 0 where
  pub function : ℕ
  pub args : ℕ

-- `thpool_job_t`. A pointer to a job is an address; `none` is NULL.
pub record Job : Type 0 where
  pub prev : Option ℕ
  pub task : Task

-- `thpool_job_queue_t` with the heap that its jobs live in: `cells a` is the job at the address `a`,
-- and `none` where there is none or it was freed. `bsem` is the `v` of the semaphore behind
-- `bsem_has_job`, and `none` where that pointer is NULL or freed; `initialized` says whether its mutex
-- and its condition variable are. `sleepers` are the threads blocked in `pthread_cond_wait` on it, and
-- `released` those that a signal or a broadcast has let go and that have not returned from it yet.
pub record World : Type 0 where
  pub cells : ℕ → Option Job
  pub front : Option ℕ
  pub rear : Option ℕ
  pub bsem : Option ℕ
  pub initialized : Bool
  pub sleepers : ℕ
  pub released : ℕ
  pub len : ℕ

-- How a command ends; `exits` is `exit(1)`.
pub data Result {ℓ} (A : Type ℓ) : Type ℓ where
  ok : A → Result A
  undefined : Result A
  out_of_fuel : Result A
  exits : Result A

abbrev pub Cmd : Type 0 → Type 0
Cmd A = World → Result (A × World)

abbrev pub pure : {A : Type 0} → A → Cmd A
pure a w = ok (a, w)

abbrev pub run_then : {A B : Type 0} → Result (A × World) → (A → Cmd B) → Result (B × World)
run_then (ok (a, w)) f = f a w
run_then undefined f = undefined
run_then out_of_fuel f = out_of_fuel
run_then exits f = exits

infixl 5 ◌>>=◌ ◌>>◌
abbrev pub ◌>>=◌ : {A B : Type 0} → Cmd A → (A → Cmd B) → Cmd B
◌>>=◌ m f w = run_then (m w) f

abbrev pub ◌>>◌ : {B : Type 0} → Cmd (Unit {0}) → Cmd B → Cmd B
m >> n = m >>= λ _. n

abbrev pub found : Option Job → Cmd Job
found none w = undefined
found (some job) w = ok (job, w)

-- `*p`: undefined through NULL and after `free`.
abbrev pub load : Option ℕ → Cmd Job
load none w = undefined
load (some a) w = found (w.cells a) w

abbrev pub store_prev : Option ℕ → Option ℕ → Cmd (Unit {0})
store_prev none prev w = undefined
store_prev (some a) prev w =
    run_then (found (w.cells a) w)
      λ job w'. ok (tt, record w' { cells = update w'.cells a (some (record job { prev = prev })) })

abbrev freed : ℕ → Option Job → Cmd (Unit {0})
freed a none w = undefined
freed a (some _) w = ok (tt, record w { cells = update w.cells a none })

-- `free`: nothing for NULL, undefined for what is not allocated.
abbrev pub free : Option ℕ → Cmd (Unit {0})
free none w = ok (tt, w)
free (some a) w = freed a (w.cells a) w

-- `len++` of an `int`
abbrev pub len_incr : Cmd (Unit {0})
len_incr w = if ltb (w.len + 1) (2 ^ 31) then ok (tt, record w { len = w.len + 1 }) else undefined

abbrev set_v : Option ℕ → ℕ → Cmd (Unit {0})
set_v none v w = undefined
set_v (some _) v w = ok (tt, record w { bsem = some v })

-- `pthread_mutex_init` and `pthread_cond_init` of the semaphore, which are undefined where it is
-- initialized.
abbrev pub init_locks : Cmd (Unit {0})
init_locks w =
    if w.initialized
    then undefined
    else ok (tt, record w { initialized = true; sleepers = 0; released = 0 })

-- `bsem_init`: the program ends for a value other than 0 and 1.
unfoldable pub bsem_init : (value : ℤ) → Cmd (Unit {0})
bsem_init (negsuc n) w = exits
bsem_init (pos zero) w = (do init_locks; λ w'. set_v w'.bsem 0 w') w
bsem_init (pos (suc zero)) w = (do init_locks; λ w'. set_v w'.bsem 1 w') w
bsem_init (pos (suc (suc n))) w = exits

-- `bsem_reset`
unfoldable pub bsem_reset : Cmd (Unit {0})
unfolding bsem_init
bsem_reset = bsem_init (pos 0)

abbrev pub one_of : ℕ → ℕ
one_of zero = 0
one_of (suc n) = 1

-- `pthread_cond_signal` lets one sleeper go, if there is any.
abbrev pub cond_signal : World → World
cond_signal w = record w { sleepers = w.sleepers - 1; released = w.released + one_of w.sleepers }

-- `pthread_cond_broadcast` lets all of them go.
abbrev pub cond_broadcast : World → World
cond_broadcast w = record w { sleepers = 0; released = w.released + w.sleepers }

-- `bsem_post`
unfoldable pub bsem_post : Cmd (Unit {0})
bsem_post w = set_v w.bsem 1 (cond_signal w)

-- `bsem_post_all`
unfoldable pub bsem_post_all : Cmd (Unit {0})
bsem_post_all w = set_v w.bsem 1 (cond_broadcast w)

abbrev taken : Option ℕ → World → Option World
taken none w = none
taken (some v) w = if v == 1 then some (record w { bsem = some 0 }) else none

-- `bsem_wait` where the test of its loop finds `v` to be 1; `none` where it does not.
unfoldable pub bsem_wait : World → Option World
bsem_wait w = taken w.bsem w

abbrev slept : Option ℕ → World → Option World
slept none w = none
slept (some v) w = if v == 1 then none else some (record w { sleepers = w.sleepers + 1 })

-- `bsem_wait` where the test of its loop does not find `v` to be 1: the thread sleeps.
unfoldable pub bsem_sleep : World → Option World
bsem_sleep w = slept w.bsem w

-- A return from `pthread_cond_wait`, by a signal or a broadcast, or by a spurious wake-up.
unfoldable pub bsem_wake : (spurious : Bool) → World → Option World
bsem_wake false w = if ltb 0 w.released then some (record w { released = w.released - 1 }) else none
bsem_wake true w = if ltb 0 w.sleepers then some (record w { sleepers = w.sleepers - 1 }) else none
