-- ===== src/ThreadPool/Creation/Laws.antt =====
-- `thpool_init` of common/thpool.c on every path, and together with the workers that it starts.
use c_playground.Prelude.{
  ℕ, zero, suc, ◌+◌, ◌≡◌, ◌≢◌, ◌≤◌, ◌<◌, refl, sym, ap, subst, Bool, true, false, none, List, [],
  ◌∷◌, arith, dec_lt, ◌⊎◌, inl, inr,
}
use c_playground.Machine.{ℤ, pos, negsuc}
use c_playground.ThreadPool.Store.{World, Result, ok, undefined, out_of_fuel, exits}
use c_playground.ThreadPool.Queue.{init_queue}
use c_playground.ThreadPool.Queue.Laws.{IsQueue, init_queue-IsQueue}
use c_playground.ThreadPool.Queue.Taking.{same_ok}
use c_playground.ThreadPool.Queue.Clearing.{clear-Drained}
use c_playground.ThreadPool.Workers.{System, spinning, Reach}
use c_playground.ThreadPool.Workers.Moving.{destroy_undefined}
use c_playground.ThreadPool.Workers.Service.{init_stuck}
use c_playground.ThreadPool.Creation.{
  Calls, Slot, null, dangling, running, thread_init, init_threads, runs, workers, Blocks, Grants,
  at_least_zero, Made, failed, made, with_queue, and_then, thpool_init,
}

-- `thread_init` comes to its `pthread_detach` behind a `pthread_create` that failed.
abbrev pub DetachesNone : Calls → Type 0
DetachesNone c =
    (c.malloc ≡ true) × (c.attr_init ≡ true) × (c.attr_setstacksize ≡ true) × (c.create ≡ false)

-- The ways in which `thpool_init` ends. NULL: the pool or the semaphore was refused, and no block is
-- left. A pool: all was granted, its queue is empty, and its slots are those that `thread_init` left.
-- Undefined: the array was refused, or some `thread_init` detaches a thread that was not created.
abbrev pub Ends : Grants → (n : ℕ) → (ℕ → Calls) → Result Made → Type 0
Ends g n calls (ok (failed b)) =
    ((g.pool ≡ false) ⊎ (g.semaphore ≡ false))
    × (b.pool ≡ false)
    × (b.threads ≡ false)
    × (b.queue.bsem ≡ none)
Ends g n calls (ok (made slots b)) =
    (g.pool ≡ true)
    × (g.semaphore ≡ true)
    × (g.threads ≡ true)
    × (b.pool ≡ true)
    × (b.threads ≡ true)
    × IsQueue [] b.queue
    × (init_threads calls 0 n ≡ ok slots)
Ends g n calls undefined =
    (g.pool ≡ true)
    × (g.semaphore ≡ true)
    × ((g.threads ≡ false) ⊎ ((i : ℕ) × (i < n) × DetachesNone (calls i)))
Ends g n calls _ = ⊥

-- `thread_init` at one set of answers.
abbrev One : Calls → Result (ℤ × Slot) → Type 0
One c (ok r) = Unit
One c undefined = DetachesNone c
One c _ = ⊥

one :
    (malloc attr_init attr_setstacksize create : Bool)
    → (let c : Calls = record {
      malloc = malloc;
      attr_init = attr_init;
      attr_setstacksize = attr_setstacksize;
      create = create;
    } in
        One c (thread_init c))
one false attr_init attr_setstacksize create = tt
one true false attr_setstacksize create = tt
one true true false create = tt
one true true true false = (refl, refl, refl, refl)
one true true true true = tt

thread_init-One : (c : Calls) → One c (thread_init c)
thread_init-One c = one c.malloc c.attr_init c.attr_setstacksize c.create

-- The loop over `thread_init`.
abbrev Some : (ℕ → Calls) → (id n : ℕ) → Result (List Slot) → Type 0
Some calls id n (ok slots) = Unit
Some calls id n undefined = (i : ℕ) × (i < n) × DetachesNone (calls (id + i))
Some calls id n _ = ⊥

step-Some :
    (calls : ℕ → Calls) (id n : ℕ) (r : Result (ℤ × Slot)) (rest : Result (List Slot))
    → One (calls id) r
    → Some calls (suc id) n rest
    → Some calls id (suc n) (and_then r λ x. and_then rest λ slots. ok (x.1 ∷ slots))
step-Some calls id n undefined rest detaches later =
    let same : id ≡ id + 0 = omega arith in
    (0, omega arith, subst (λ k. DetachesNone (calls k)) same detaches)
step-Some calls id n (ok x) (ok slots) _ later = tt
step-Some calls id n (ok x) undefined _ (i, lt, detaches) =
    let same : suc id + i ≡ id + suc i = omega arith in
    (suc i, omega arith, subst (λ k. DetachesNone (calls k)) same detaches)
step-Some calls id n (ok x) out_of_fuel _ later = absurd later
step-Some calls id n (ok x) exits _ later = absurd later
step-Some calls id n out_of_fuel rest never later = absurd never
step-Some calls id n exits rest never later = absurd never

init_threads-Some : (calls : ℕ → Calls) (id n : ℕ) → Some calls id n (init_threads calls id n)
init_threads-Some calls id zero = tt
init_threads-Some calls id (suc n) =
    step-Some calls id n (thread_init (calls id)) (init_threads calls (suc id) n)
      (thread_init-One (calls id)) (init_threads-Some calls (suc id) n)

no_semaphore :
    (v : ℕ) (w : World)
    → init_queue false v w
      ≡ ok (
        negsuc 0,
        record w { len = 0; front = none; rear = none; bsem = none; initialized = false },
      )
unfolding init_queue
no_semaphore v w = refl

abbrev all_granted : Bool → Grants
all_granted threads = record { pool = true; semaphore = true; threads = threads }

loop-Ends :
    (n : ℕ) (calls : ℕ → Calls) (q : World) (r : Result (List Slot))
    → IsQueue [] q
    → init_threads calls 0 n ≡ r
    → Some calls 0 n r
    → Ends
        (all_granted true)
        n
        calls
        (and_then r λ slots. ok (made slots (record { pool = true; threads = true; queue = q })))
loop-Ends n calls q (ok slots) is run some = (refl, refl, refl, refl, refl, is, run)
loop-Ends n calls q undefined is run (i, lt, detaches) =
    let same : 0 + i ≡ i = omega arith in
    (refl, refl, inr (i, lt, subst (λ k. DetachesNone (calls k)) same detaches))
loop-Ends n calls q out_of_fuel is run never = absurd never
loop-Ends n calls q exits is run never = absurd never

queue-Ends :
    (threads : Bool) (n : ℕ) (calls : ℕ → Calls) (q : World)
    → IsQueue [] q
    → Ends (all_granted threads) n calls (with_queue threads n calls (pos 0, q))
unfolding with_queue
queue-Ends true n calls q is =
    loop-Ends n calls q (init_threads calls 0 n) is refl (init_threads-Some calls 0 n)
queue-Ends false n calls q is =
    let gone = destroy_undefined q (clear-Drained q [] is).1 in rw gone (refl, refl, inl refl)

each-Ends :
    (pool semaphore threads : Bool) (v : ℕ) (num_threads : ℤ) (calls : ℕ → Calls) (w : World)
    → w.bsem ≡ none
    → (let g : Grants = record { pool = pool; semaphore = semaphore; threads = threads } in
        Ends g (at_least_zero num_threads) calls (thpool_init g v num_threads calls w))
unfolding thpool_init with_queue
each-Ends false semaphore threads v num_threads calls w fresh = (inl refl, refl, refl, fresh)
each-Ends true false threads v num_threads calls w fresh =
    let n = at_least_zero num_threads in
    let g : Grants = record { pool = true; semaphore = false; threads = threads } in
    subst (λ r. Ends g n calls (and_then r (with_queue threads n calls))) (sym (no_semaphore v w))
      (inr refl, refl, refl, refl)
each-Ends true true threads v num_threads calls w fresh =
    let x = init_queue-IsQueue w v in
    let n = at_least_zero num_threads in
    subst (λ r. Ends (all_granted threads) n calls (and_then r (with_queue threads n calls)))
      (sym x.1) (queue-Ends threads n calls x.0 x.2)

pub thpool_init-Ends :
    (g : Grants) (v : ℕ) (num_threads : ℤ) (calls : ℕ → Calls) (w : World)
    → w.bsem ≡ none
    → Ends g (at_least_zero num_threads) calls (thpool_init g v num_threads calls w)
thpool_init-Ends g v num_threads calls w fresh =
    each-Ends g.pool g.semaphore g.threads v num_threads calls w fresh

runs_le : (s : Slot) → runs s ≤ 1
runs_le null = omega arith
runs_le dangling = omega arith
runs_le running = omega arith

-- The first of the threads, and the others.
split :
    (r : Result (ℤ × Slot)) (rest : Result (List Slot)) (slots : List Slot)
    → and_then r (λ x. and_then rest λ ss. ok (x.1 ∷ ss)) ≡ ok slots
    → (x : ℤ × Slot) × (ss : List Slot) × (r ≡ ok x) × (rest ≡ ok ss) × (slots ≡ x.1 ∷ ss)
split (ok x) (ok ss) slots e = (x, ss, refl, refl, sym (same_ok e))
split (ok x) undefined slots e = absurd (cc)
split (ok x) out_of_fuel slots e = absurd (cc)
split (ok x) exits slots e = absurd (cc)
split undefined rest slots e = absurd (cc)
split out_of_fuel rest slots e = absurd (cc)
split exits rest slots e = absurd (cc)

not_running :
    (r x : ℤ × Slot) → runs r.1 ≡ 0 → ok r ≡ ok x → runs x.1 ≡ 1 → ok r ≡ ok (pos 0, running)
not_running r x none_runs e e' =
    absurd (let same = ap (λ (y : ℤ × Slot). runs y.1) (same_ok e) in omega arith)

run_all :
    (malloc attr_init attr_setstacksize create : Bool) (x : ℤ × Slot)
    → (let c : Calls = record {
      malloc = malloc;
      attr_init = attr_init;
      attr_setstacksize = attr_setstacksize;
      create = create;
    } in
        thread_init c ≡ ok x → runs x.1 ≡ 1 → thread_init c ≡ ok (pos 0, running))
run_all true true true true x e e' = refl
run_all true true true false x e e' = absurd (cc)
run_all true true false create x e e' = not_running (negsuc 0, dangling) x refl e e'
run_all true false attr_setstacksize create x e e' = not_running (negsuc 0, dangling) x refl e e'
run_all false attr_init attr_setstacksize create x e e' = not_running (negsuc 0, null) x refl e e'

run_thread :
    (c : Calls) (x : ℤ × Slot)
    → thread_init c ≡ ok x
    → runs x.1 ≡ 1
    → thread_init c ≡ ok (pos 0, running)
run_thread c x e e' = run_all c.malloc c.attr_init c.attr_setstacksize c.create x e e'

workers_le :
    (calls : ℕ → Calls) (id n : ℕ) (slots : List Slot)
    → init_threads calls id n ≡ ok slots
    → workers slots ≤ n
workers_le calls id zero slots e = let same = ap workers (same_ok e) in omega (arith, same)
workers_le calls id (suc n) slots e =
    let (x, ss, first, rest, same) =
      split (thread_init (calls id)) (init_threads calls (suc id) n) slots e in
    omega (arith, ap workers same, runs_le x.1, workers_le calls (suc id) n ss rest)

all_run :
    (calls : ℕ → Calls) (id n : ℕ) (slots : List Slot)
    → init_threads calls id n ≡ ok slots
    → n ≤ workers slots
    → (i : ℕ) → i < n
    → thread_init (calls (id + i)) ≡ ok (pos 0, running)
all_run calls id zero slots e full i lt = absurd (omega arith)
all_run calls id (suc n) slots e full i lt =
    let (x, ss, first, rest, same) =
      split (thread_init (calls id)) (init_threads calls (suc id) n) slots e in
    let count = ap workers same in
    let le = workers_le calls (suc id) n ss rest in
    let place = λ (j : ℕ) (at : suc j ≡ i).
      let next : suc id + j ≡ id + i = omega (arith, at) in
      subst (λ k. thread_init (calls k) ≡ ok (pos 0, running)) next
        (all_run calls (suc id) n ss rest (omega (arith, count, full, runs_le x.1)) j
          (omega (arith, at, lt))) in
    one_of_all i place (run_thread (calls id) x first (omega (arith, count, full, le, runs_le x.1)))
  where
    one_of_all :
        (i : ℕ)
        → ((j : ℕ) → suc j ≡ i → thread_init (calls (id + i)) ≡ ok (pos 0, running))
        → thread_init (calls id) ≡ ok (pos 0, running)
        → thread_init (calls (id + i)) ≡ ok (pos 0, running)
    one_of_all zero place here =
        let same : id ≡ id + 0 = omega arith in
        subst (λ k. thread_init (calls k) ≡ ok (pos 0, running)) same here
    one_of_all (suc j) place here = place j refl

-- A pool whose semaphore did not exist before, and that `thpool_init` makes without undefined
-- behaviour: when the client of the pool has left its last loop, in any interleaving with the workers
-- that were started, every `thread_init` has succeeded and every thread runs.
pub returned-started :
    (g : Grants) (v : ℕ) (num_threads : ℤ) (calls : ℕ → Calls) (w : World) {slots : List Slot}
    {b : Blocks} {s : System}
    → w.bsem ≡ none
    → thpool_init g v num_threads calls w ≡ ok (made slots b)
    → Reach (record { num_threads = at_least_zero num_threads; workers = workers slots }) b.queue s
    → s.pool.client ≢ spinning
    → (i : ℕ) → i < at_least_zero num_threads
    → thread_init (calls i) ≡ ok (pos 0, running)
returned-started g v num_threads calls w {slots} {b} fresh run r left i lt =
    let n = at_least_zero num_threads in
    let ends = subst (Ends g n calls) run (thpool_init-Ends g v num_threads calls w fresh) in
    let (_, _, _, _, _, empty, slots_of) = ends in
    let le = workers_le calls 0 n slots slots_of in
    let full : n ≤ workers slots = elim (dec_lt (workers slots) n) [
      | yes fewer ↦ absurd (left (init_stuck (record { asked = le; empty = empty }) r fewer))
      | no all ↦ omega (arith, all)
    ] in
    let first : 0 + i ≡ i = omega arith in
    subst (λ k. thread_init (calls k) ≡ ok (pos 0, running)) first
      (all_run calls 0 n slots slots_of full i lt)
