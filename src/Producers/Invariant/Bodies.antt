-- ===== src/Producers/Invariant/Bodies.antt =====
-- What the two locked bodies do, branch by branch, to a buffer within its bounds.
use c_playground.Prelude.{
  ℕ, ◌+◌, ◌-◌, ◌%◌, ◌^◌, ◌≤◌, ◌<◌, ◌≡◌, ◌≢◌, ◌⊎◌, true, false, none, some, arith, length, get_elem?,
  set, inl, inr, dec_lt, ℕ_discrete, get_elem?-some, Option-cases,
}
use c_playground.Producers.{Buffer, Outcome, produce_body, consume_body}

-- The effect of a body that moves no number.
pub record Idle (b : Buffer) (o : Outcome) : Type 0 where
  pub same : o.buffer ≡ b
  pub none_moved : o.moved ≡ none

-- The effect of `produce_item`, within the widths of the counters.
pub record Pushed (rand : ℕ) (b : Buffer) (o : Outcome) : Type 0 where
  pub leaves : o.leaves ≡ false
  pub moved : o.moved ≡ some (rand % 100)
  pub effect : o.buffer ≡ record b {
    items = set b.items b.dataptr (rand % 100);
    size = b.size + 1;
    dataptr = b.dataptr + 1;
    num_gen = b.num_gen + 1;
  }

-- The effect of `consume_item`.
pub record Popped (b : Buffer) (o : Outcome) : Type 0 where
  pub leaves : o.leaves ≡ false
  pub number : ℕ
  pub moved : o.moved ≡ some number
  pub found : get_elem? b.items (b.dataptr - 1) ≡ some number
  pub effect :
      o.buffer ≡ record b { size = b.size - 1; dataptr = b.dataptr - 1; num_con = b.num_con + 1 }

-- The shape that the bodies rely on.
pub record InBounds (max : ℕ) (b : Buffer) : Type 0 where
  pub small : length b.items < 2 ^ 31
  pub limit : max < 2 ^ 31
  pub room : b.capacity ≡ length b.items
  pub top : b.dataptr ≡ b.size
  pub fits : b.size ≤ length b.items
  pub balance : b.num_gen ≡ b.num_con + b.size
  pub bounded : b.num_gen ≤ max

-- `do_produce` with room in the buffer: it leaves at the limit, and otherwise stores a number.
pub produce_body_cases :
    (max rand : ℕ) (b : Buffer) {o : Outcome}
    → InBounds max b
    → b.size < length b.items
    → produce_body max rand b ≡ some o
    → ((b.num_gen ≡ max) × Idle b o × (o.leaves ≡ true)) ⊎ ((b.num_gen < max) × Pushed rand b o)
unfolding produce_body
produce_body_cases max rand b v room h = elim (ℕ_discrete b.num_gen max) [
  | yes e ↦ inl (e, record { same = ground arith; none_moved = ground arith }, ground arith)
  | no n ↦
      inr
        (omega arith, record { leaves = ground arith; moved = ground arith; effect = ground arith })
]

pub consume_body_cases :
    (max : ℕ) (b : Buffer) {o : Outcome}
    → InBounds max b
    → consume_body max b ≡ some o
    → ((b.num_con ≡ max) × Idle b o × (o.leaves ≡ true))
      ⊎ (((b.num_con < max) × (b.size ≡ 0) × Idle b o × (o.leaves ≡ false))
          ⊎ ((b.num_con < max) × (0 < b.size) × Popped b o))
unfolding consume_body
consume_body_cases max b {o} v h = elim (ℕ_discrete b.num_con max) [
  | yes e ↦ inl (e, record { same = ground arith; none_moved = ground arith }, ground arith)
  | no n ↦ elim (dec_lt 0 b.size) [
    | no z ↦ inr (
        inl (
          omega arith,
          omega arith,
          record { same = ground arith; none_moved = ground arith },
          ground arith,
        ))
    | yes p ↦ inr (inr (omega arith, p, popped n p))
  ]
]
  where
    popped : b.num_con ≢ max → 0 < b.size → Popped b o
    popped n p =
        let (number, e) = get_elem?-some b.items (b.dataptr - 1) (omega arith) in
        record {
          leaves = ground arith;
          number = number;
          moved = ground arith;
          found = e;
          effect = ground arith;
        }

-- Neither body leaves `data`: it has an outcome.
pub produce_body_total :
    (max rand : ℕ) (b : Buffer)
    → InBounds max b
    → b.size < length b.items
    → (o : Outcome) × (produce_body max rand b ≡ some o)
unfolding produce_body
produce_body_total max rand b v room = elim (Option-cases (produce_body max rand b)) [
  | inl e ↦ absurd (ground arith)
  | inr found ↦ found
]

pub consume_body_total :
    (max : ℕ) (b : Buffer) → InBounds max b → (o : Outcome) × (consume_body max b ≡ some o)
unfolding consume_body
consume_body_total max b v = elim (Option-cases (consume_body max b)) [
  | inl e ↦
      absurd
        (ground (arith, λ (p : 0 < b.size). get_elem?-some b.items (b.dataptr - 1) (omega arith)))
  | inr found ↦ found
]
