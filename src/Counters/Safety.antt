-- ===== src/Counters/Safety.antt =====
-- What condition_variables.c is meant to show: the two threads end, and the sleeper is woken.
use c_playground.Prelude.{
  ℕ, ◌+◌, ◌≡◌, ◌≤◌, refl, sym, ap, subst, ◌∙◌, false, arith, ◌⊎◌, inl, inr, dec_lt, Bool-cases,
}
use c_playground.Counters.{
  Pc, entering, testing, asleep, signalled, leaving, waiting, counting, releasing, checking, exited,
  Shared, halts, Both, lock, unlock, lock_count, increment, unlock_count, check, System, Step,
  first, second, sleep, pass, wake, notify, Reach,
}
use c_playground.Counters.Invariant.{Reach-Inv}
use c_playground.Counters.Moved.{holds, holds_count, past, ahead, sleeps}

-- The mutex that a thread waits for.
abbrev needs : Pc → ℕ
needs entering = 1
needs signalled = 1
needs _ = 0

abbrev needs_count : Pc → ℕ
needs_count waiting = 1
needs_count _ = 0

-- A thread waits for a mutex only when it holds none.
one_at_most : (p : Pc) → (holds p + holds_count p) + (needs p + needs_count p) ≤ 1
one_at_most entering = omega arith
one_at_most testing = omega arith
one_at_most asleep = omega arith
one_at_most signalled = omega arith
one_at_most leaving = omega arith
one_at_most waiting = omega arith
one_at_most counting = omega arith
one_at_most releasing = omega arith
one_at_most checking = omega arith
one_at_most exited = omega arith

past_le_one : (p : Pc) → past p ≤ 1
past_le_one entering = omega arith
past_le_one testing = omega arith
past_le_one asleep = omega arith
past_le_one signalled = omega arith
past_le_one leaving = omega arith
past_le_one waiting = omega arith
past_le_one counting = omega arith
past_le_one releasing = omega arith
past_le_one checking = omega arith
past_le_one exited = omega arith

-- A thread at a place where it needs no more than the mutexes.
data Kind : Pc → Type 0 where
  moves :
      {p : Pc}
      → ((m : Shared)
          → (needs p ≡ 1 → m.condition_mutex ≡ 1)
          → (needs_count p ≡ 1 → m.count_mutex ≡ 1)
          → (m' : Shared) × (p' : Pc) × Both m p m' p')
      → Kind p
  tests : Kind testing
  is_asleep : Kind asleep
  is_signalled : Kind signalled
  is_out : Kind exited

kind : (p : Pc) → Kind p
kind entering = moves (λ m c q. (_, _, lock (c refl)))
kind testing = tests
kind asleep = is_asleep
kind signalled = is_signalled
kind leaving = moves (λ m c q. (_, _, unlock))
kind waiting = moves (λ m c q. (_, _, lock_count (q refl)))
kind counting = moves (λ m c q. (_, _, increment))
kind releasing = moves (λ m c q. (_, _, unlock_count))
kind checking = moves (λ m c q. (_, _, check))
kind exited = is_out

abbrev Goes : System → Type 0
Goes s = (t : System) × Step false s t

-- `func2` goes on when `func1` holds no mutex that it needs.
second-Goes :
    (s : System) (p : Pc)
    → s.func2 ≡ p
    → Kind p
    → sleeps p ≡ false
    → (needs p ≡ 1 → s.shared.condition_mutex ≡ 1)
    → (needs_count p ≡ 1 → s.shared.count_mutex ≡ 1)
    → (p ≡ exited) ⊎ Goes s
second-Goes s p at (moves f) up c q =
    let g = f s.shared c q in inr (_, second (subst (λ x. Both s.shared x g.0 g.1) (sym at) g.2))
second-Goes s p at tests up c q = inr (_, notify at)
second-Goes s p at is_asleep up c q = absurd (cc)
second-Goes s p at is_signalled up c q = absurd (cc)
second-Goes s p at is_out up c q = inl refl

first-Goes :
    (s : System) (p : Pc)
    → s.func1 ≡ p
    → Kind p
    → (needs p ≡ 1 → s.shared.condition_mutex ≡ 1)
    → (needs_count p ≡ 1 → s.shared.count_mutex ≡ 1)
    → (p ≡ exited) ⊎ ((p ≡ asleep) ⊎ Goes s)
first-Goes s p at (moves f) c q =
    let g = f s.shared c q in
    inr (inr (_, first (subst (λ x. Both s.shared x g.0 g.1) (sym at) g.2)))
first-Goes s p at tests c q = elim (Bool-cases (halts s.shared.count)) [
  | inl inside ↦ inr (inr (_, sleep at inside))
  | inr outside ↦ inr (inr (_, pass at outside))
]
first-Goes s p at is_asleep c q = inr (inl refl)
first-Goes s p at is_signalled c q = inr (inr (_, wake at (c refl)))
first-Goes s p at is_out c q = inl refl

module _ {s : System} (r : Reach s) where
  -- When `func2` holds no mutex.
  let_first :
      holds s.func2 ≡ 0
      → holds_count s.func2 ≡ 0
      → (s.func1 ≡ exited) ⊎ ((s.func1 ≡ asleep) ⊎ Goes s)
  let_first h q =
      let inv = Reach-Inv r in
      let most = one_at_most s.func1 in
      first-Goes s s.func1 refl (kind s.func1) (λ z. omega (arith, inv.token, h, most, z))
        (λ z. omega (arith, inv.token_count, q, most, z))

  -- When `func1` holds no mutex, or `func2` needs none.
  let_second :
      (holds s.func1 ≡ 0) ⊎ (needs s.func2 ≡ 0)
      → (holds_count s.func1 ≡ 0) ⊎ (needs_count s.func2 ≡ 0)
      → (s.func2 ≡ exited) ⊎ Goes s
  let_second h q =
      let inv = Reach-Inv r in
      let most = one_at_most s.func2 in
      second-Goes s s.func2 refl (kind s.func2) inv.up
        (λ z. elim h [
          | inl free ↦ omega (arith, inv.token, free, most, z)
          | inr needless ↦ absurd (omega (arith, needless, z))
        ])
        (λ z. elim q [
          | inl free ↦ omega (arith, inv.token_count, free, most, z)
          | inr needless ↦ absurd (omega (arith, needless, z))
        ])

  -- `func1` is at a place without a mutex.
  first_rests :
      (p : Pc) → s.func1 ≡ p → holds p ≡ 0 → holds_count p ≡ 0 → (s.func2 ≡ exited) ⊎ Goes s
  first_rests p at h q = let_second (inl (ap holds at ∙ h)) (inl (ap holds_count at ∙ q))

  -- `count` never exceeds 11; a thread that has ended has seen at least COUNT_DONE; so when both have
  -- ended, `count` is 10 or 11.
  pub final_count :
      (s.shared.count ≤ 11)
      × (s.func1 ≡ exited → 10 ≤ s.shared.count)
      × (s.func2 ≡ exited → 10 ≤ s.shared.count)
  final_count =
      let inv = Reach-Inv r in
      (omega (arith, inv.bound, past_le_one s.func1, past_le_one s.func2), inv.out1, inv.out2)

  -- The threads do not deadlock, and `func1` does not wait for a signal that never comes: in every
  -- reachable state both have ended, or some thread can go on without a spurious wake-up.
  pub no_deadlock : ((s.func1 ≡ exited) × (s.func2 ≡ exited)) ⊎ ((t : System) × Step false s t)
  no_deadlock =
      let inv = Reach-Inv r in
      let most = one_at_most s.func2 in
      elim (dec_lt 0 (holds s.func2 + holds_count s.func2)) [
        | yes some_held ↦
            elim (let_second (inr (omega (arith, most, some_held)))
              (inr (omega (arith, most, some_held)))) [
                | inl out ↦ absurd (
                    let h = ap holds out in
                    let q = ap holds_count out in omega (arith, h, q, some_held))
                | inr g ↦ inr g
              ]
        | no z ↦ elim (let_first (omega (arith, z)) (omega (arith, z))) [
          | inl out ↦ elim (first_rests exited out refl refl) [
            | inl out2 ↦ inl (out, out2)
            | inr g ↦ inr g
          ]
          | inr (inl is) ↦ elim (first_rests asleep is refl refl) [
            | inl out2 ↦
                absurd (let a = ap ahead out2 in omega (arith, a, inv.out2 out2, inv.served is))
            | inr g ↦ inr g
          ]
          | inr (inr g) ↦ inr g
        ]
      ]
