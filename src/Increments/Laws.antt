-- ===== src/Increments/Laws.antt =====
-- The counter of mutex_example.c and pthread_join_example.c.
use c_playground.Prelude.{
  ℕ, suc, ◌+◌, ◌≤◌, ◌<◌, ◌≡◌, refl, ap, arith, update, update-same, update-other, total,
  total-update, total-const_zero, total_ge, total-add-le, le-total, add-le-total, ℕ_discrete,
  dec_lt,
}
use c_playground.Increments.{
  Pc, unborn, locking, reading, writing, unlocking, exited, Shared, Move, lock, read, write, unlock,
  Main, creates, joins, System, Step, move, create, all_created, join, Reach, start, later,
}

-- 1 for a thread that holds the mutex.
abbrev holds : Pc → ℕ
holds reading = 1
holds (writing v) = 1
holds unlocking = 1
holds _ = 0

-- 1 for a thread that has added its 1.
abbrev added : Pc → ℕ
added unlocking = 1
added exited = 1
added _ = 0

-- A thread that has read the counter holds its value.
abbrev Read : ℕ → Pc → Type 0
Read counter (writing v) = v ≡ counter
Read counter _ = Unit

-- What `main` has joined.
abbrev Joined : (ℕ → Pc) → Main → Type 0
Joined pc (creates k) = (i : ℕ) → k ≤ i → pc i ≡ unborn
Joined pc (joins k) = (i : ℕ) → i < k → pc i ≡ exited

record Inv (n : ℕ) (s : System) : Type 0 where
  guarded : s.shared.mutex + total holds n s.pc ≡ 1
  counted : s.shared.counter ≡ total added n s.pc
  value : (i : ℕ) → i < n → Read s.shared.counter (s.pc i)
  joined : Joined s.pc s.main

not_held : (p : Pc) (counter : ℕ) → holds p ≡ 0 → Read counter p
not_held (writing v) counter e = absurd (omega arith)
not_held unborn counter e = tt
not_held _ counter e = tt

-- What a move does to the thread and to the globals.
record Moved (m : Shared) (p : Pc) (m' : Shared) (p' : Pc) : Type 0 where
  token : m'.mutex + holds p' ≡ m.mutex + holds p
  count : m'.counter + added p ≡ m.counter + added p'
  value : Read m'.counter p'
  inside : (m'.counter ≡ m.counter → ⊥) → holds p ≡ 1
  born : p ≡ unborn → ⊥
  stays : p ≡ exited → ⊥

Move-Moved :
    {m m' : Shared} {p p' : Pc}
    → m.mutex + holds p ≤ 1
    → Read m.counter p
    → Move m p m' p'
    → Moved m p m' p'
Move-Moved le v (lock free) = record {
  token = omega arith;
  count = refl;
  value = tt;
  inside = λ e. absurd (e refl);
  born = λ e. cc;
  stays = λ e. cc;
}
Move-Moved le v read = record {
  token = refl;
  count = refl;
  value = refl;
  inside = λ e. refl;
  born = λ e. cc;
  stays = λ e. cc;
}
Move-Moved le v (write x) = record {
  token = refl;
  count = omega (arith, v);
  value = tt;
  inside = λ e. refl;
  born = λ e. cc;
  stays = λ e. cc;
}
Move-Moved le v unlock = record {
  token = omega arith;
  count = refl;
  value = tt;
  inside = λ e. absurd (e refl);
  born = λ e. cc;
  stays = λ e. cc;
}

Joined-kept :
    (pc : ℕ → Pc) (main : Main) (i : ℕ) (p : Pc)
    → (pc i ≡ unborn → ⊥)
    → (pc i ≡ exited → ⊥)
    → Joined pc main
    → Joined (update pc i p) main
Joined-kept pc (creates k) i p born stays all = λ j le. elim (ℕ_discrete j i) [
  | yes e ↦ absurd (born (rw (← e) (all j le)))
  | no ne ↦ rw (update-other pc i p j ne) (all j le)
]
Joined-kept pc (joins k) i p born stays all = λ j lt. elim (ℕ_discrete j i) [
  | yes e ↦ absurd (stays (rw (← e) (all j lt)))
  | no ne ↦ rw (update-other pc i p j ne) (all j lt)
]

-- Two threads never hold the mutex at once.
others_wait :
    {n : ℕ} {s : System}
    → Inv n s
    → (i j : ℕ) → i < n
    → j < n
    → (j ≡ i → ⊥)
    → holds (s.pc i) ≡ 1
    → holds (s.pc j) ≡ 0
others_wait {n} {s} inv i j lt lt' ne e = elim (dec_lt i j) [
  | yes p ↦ omega (arith, inv.guarded, add-le-total holds n s.pc i j p lt')
  | no q ↦ omega (arith, inv.guarded, add-le-total holds n s.pc j i (omega (arith, ne, q)) lt)
]

move-Inv :
    {n : ℕ} {s : System} {m : Shared} {p : Pc}
    → Inv n s
    → (i : ℕ) → i < n
    → Move s.shared (s.pc i) m p
    → Inv n (record s { shared = m; pc = update s.pc i p })
move-Inv {n} {s} {m} {p} inv i lt mv = record {
  guarded = omega (arith, inv.guarded, x.token, total-update holds n s.pc i p lt);
  counted = omega (arith, inv.counted, x.count, total-update added n s.pc i p lt);
  value = values;
  joined = Joined-kept s.pc s.main i p x.born x.stays inv.joined;
}
  where
    x : Moved s.shared (s.pc i) m p
    x = Move-Moved (omega (arith, inv.guarded, le-total holds n s.pc i lt)) (inv.value i lt) mv

    other : (j : ℕ) → j < n → (j ≡ i → ⊥) → Read m.counter (s.pc j)
    other j lt' ne = elim (ℕ_discrete m.counter s.shared.counter) [
      | yes same ↦ rw same (inv.value j lt')
      | no changed ↦ not_held (s.pc j) m.counter (others_wait inv i j lt lt' ne (x.inside changed))
    ]

    values : (j : ℕ) → j < n → Read m.counter (update s.pc i p j)
    values j lt' = elim (ℕ_discrete j i) [
      | yes e ↦ rw (e, update-same s.pc i p) x.value
      | no ne ↦ rw (update-other s.pc i p j ne) (other j lt' ne)
    ]

Step-Inv : {n : ℕ} {s t : System} → Inv n s → Step n s t → Inv n t
Step-Inv inv (move i lt mv) = move-Inv inv i lt mv
Step-Inv {n} {s} inv (create k at lt) = record {
  guarded = omega (
    arith,
    inv.guarded,
    total-update holds n s.pc k locking lt,
    ap holds (young k (omega arith)),
  );
  counted = omega (
    arith,
    inv.counted,
    total-update added n s.pc k locking lt,
    ap added (young k (omega arith)),
  );
  value = values;
  joined = λ i le.
      rw (update-other s.pc k locking i (λ e. omega (arith, e, le))) (young i (omega arith));
}
  where
    young : (i : ℕ) → k ≤ i → s.pc i ≡ unborn
    young = rw at at inv.joined

    values : (j : ℕ) → j < n → Read s.shared.counter (update s.pc k locking j)
    values j lt' = elim (ℕ_discrete j k) [
      | yes e ↦ rw (e, update-same s.pc k locking) tt
      | no ne ↦ rw (update-other s.pc k locking j ne) (inv.value j lt')
    ]
Step-Inv inv (all_created at) = record {
  guarded = inv.guarded;
  counted = inv.counted;
  value = inv.value;
  joined = λ i lt. elim lt [ ];
}
Step-Inv {s} inv (join k at lt out) = record {
  guarded = inv.guarded;
  counted = inv.counted;
  value = inv.value;
  joined = all;
}
  where
    before : (i : ℕ) → i < k → s.pc i ≡ exited
    before = rw at at inv.joined

    all : (i : ℕ) → i < suc k → s.pc i ≡ exited
    all i lt' = elim (ℕ_discrete i k) [ yes e ↦ rw e out | no ne ↦ before i (omega arith) ]

Reach-Inv : {n : ℕ} {s : System} → Reach n s → Inv n s
Reach-Inv {n} start = record {
  guarded = omega (arith, total-const_zero holds n (λ i. unborn) (λ i lt. refl));
  counted = omega (arith, total-const_zero added n (λ i. unborn) (λ i lt. refl));
  value = λ i lt. tt;
  joined = λ i le. refl;
}
Reach-Inv (later r step) = Step-Inv (Reach-Inv r) step

nothing : Pc → ℕ
nothing p = 0

added_once : (p : Pc) → added p + nothing p ≤ 1
unfolding nothing
added_once unlocking = omega arith
added_once exited = omega arith
added_once _ = omega arith

-- However the threads interleave with each other and with `main`: when `main` has joined all of them,
-- the counter is their number, so that no increment is lost.
pub counts_all : {n : ℕ} {s : System} → Reach n s → s.main ≡ joins n → s.shared.counter ≡ n
counts_all {n} {s} r at =
    let inv = Reach-Inv r in
    let bound = total-add-le added nothing added_once n s.pc in
    let all : (i : ℕ) → i < n → s.pc i ≡ exited = rw at at inv.joined in
    let full = total_ge added n s.pc (λ i lt. omega (arith, ap added (all i lt))) in
    omega (arith, inv.counted, bound, full)
