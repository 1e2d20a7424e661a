-- ===== src/Prelude/Threads.antt =====
-- Families `ℕ → A` indexed by thread: one entry replaced, and sums of weights over the first `n`.
use Prim.Native.Nat.{ℕ, zero, suc, ◌+◌, ◌*◌, ◌≤◌, ◌<◌}
use mathlib.Core.Path.{◌≡◌, refl}
use mathlib.Core.Logic.{ite, ◌⊎◌, inl, inr}
use native.Mathlib.Decide.{dec_lt, ℕ_discrete}
use native.Mathlib.Omega.{arith}

-- The family with the entry of thread `who` replaced.
abbrev pub update {ℓ} : {State : Type ℓ} → (ℕ → State) → (who : ℕ) → State → (ℕ → State)
update family who new i = ite (ℕ_discrete who i) new (family i)

pub update-same {ℓ} :
    {State : Type ℓ} (family : ℕ → State) (who : ℕ) (new : State) → update family who new who ≡ new
update-same family who new = ground arith

pub update-other {ℓ} :
    {State : Type ℓ} (family : ℕ → State) (who : ℕ) (new : State) (i : ℕ)
    → ¬ (i ≡ who)
    → update family who new i ≡ family i
update-other family who new i ne = ground (arith, ne)

module _ {ℓ} {State : Type ℓ} (weight : State → ℕ) where
  unfoldable pub total : (threads : ℕ) → (ℕ → State) → ℕ
  total zero family = 0
  total (suc k) family = weight (family k) + total k family

  -- Only the entries below `threads` count.
  beyond :
      (family : ℕ → State) (who : ℕ) (new : State) (threads : ℕ)
      → threads ≤ who
      → total threads family ≡ total threads (update family who new)
  unfolding total
  beyond family who new zero h = refl
  beyond family who new (suc k) h =
      let same : total k family ≡ total k (update family who new) =
        beyond family who new k (omega arith) in
      ground (arith, same)

  -- The sum moves by what the replaced entry moves.
  pub total-update :
      (threads : ℕ) (family : ℕ → State) (who : ℕ) (new : State)
      → who < threads
      → total threads (update family who new) + weight (family who)
        ≡ total threads family + weight new
  unfolding total
  total-update zero family who new inside = absurd (omega arith)
  total-update (suc k) family who new inside = elim (ℕ_discrete who k) [
    | yes last ↦ ground (arith, last, beyond family who new k)
    | no earlier ↦ ground (arith, total-update k family who new (omega arith))
  ]

  pub total-const_zero :
      (n : ℕ) (f : ℕ → State) → ((i : ℕ) → i < n → weight (f i) ≡ 0) → total n f ≡ 0
  unfolding total
  total-const_zero zero f h = refl
  total-const_zero (suc n) f h =
      omega (arith, h n (omega arith), total-const_zero n f (λ i lt. h i (omega arith)))

  pub total-zero : (f : ℕ → State) → total 0 f ≡ 0
  unfolding total
  total-zero f = refl

  pub total-suc : (k : ℕ) (f : ℕ → State) → total (suc k) f ≡ weight (f k) + total k f
  unfolding total
  total-suc k f = refl

  pub total_bound :
      (k : ℕ) → ((s : State) → weight s ≤ k) → (n : ℕ) (f : ℕ → State) → total n f ≤ k * n
  unfolding total
  total_bound k most zero f = omega arith
  total_bound k most (suc n) f = omega (arith, most (f n), total_bound k most n f)

  pub total_ge : (n : ℕ) (f : ℕ → State) → ((i : ℕ) → i < n → 1 ≤ weight (f i)) → n ≤ total n f
  unfolding total
  total_ge zero f h = omega arith
  total_ge (suc n) f h = omega (arith, h n (omega arith), total_ge n f (λ i lt. h i (omega arith)))

  -- A single entry is at most the sum.
  pub le-total : (n : ℕ) (f : ℕ → State) (i : ℕ) → i < n → weight (f i) ≤ total n f
  unfolding total
  le-total zero f i h = absurd (omega arith)
  le-total (suc n) f i h = elim (dec_lt i n) [
    | yes below ↦ omega (arith, le-total n f i below)
    | no last ↦ ground arith
  ]

  -- Two different entries are at most the sum.
  pub add-le-total :
      (n : ℕ) (f : ℕ → State) (i j : ℕ) → i < j → j < n → weight (f i) + weight (f j) ≤ total n f
  unfolding total
  add-le-total zero f i j h k = absurd (omega arith)
  add-le-total (suc n) f i j h k = elim (dec_lt j n) [
    | yes below ↦ omega (arith, add-le-total n f i j h below)
    | no last ↦ ground (arith, le-total n f i)
  ]

  -- A positive sum has a positive entry.
  pub pos_entry :
      (n : ℕ) (f : ℕ → State) → (total n f ≡ 0) ⊎ ((i : ℕ) × (i < n) × (0 < weight (f i)))
  unfolding total
  pos_entry zero f = inl refl
  pos_entry (suc n) f = elim (pos_entry n f) [
    | inr (i, lt, p) ↦ inr (i, omega arith, p)
    | inl e ↦ elim (dec_lt 0 (weight (f n))) [
      | yes p ↦ inr (n, omega arith, p)
      | no z ↦ inl (omega arith)
    ]
  ]

module _ {ℓ} {State : Type ℓ} (w v : State → ℕ) where
  pub total_mono : ((a : State) → w a ≤ v a) → (n : ℕ) (f : ℕ → State) → total w n f ≤ total v n f
  unfolding total
  total_mono le zero f = omega arith
  total_mono le (suc n) f = omega (arith, le (f n), total_mono le n f)

  -- Two weights that exclude each other.
  pub total-add-le :
      ((a : State) → w a + v a ≤ 1) → (n : ℕ) (f : ℕ → State) → total w n f + total v n f ≤ n
  unfolding total
  total-add-le le zero f = omega arith
  total-add-le le (suc n) f = omega (arith, le (f n), total-add-le le n f)
