-- ===== src/Handle/Laws.antt =====
-- What the number is when all jobs of thpool_test.c have returned.
use c_playground.Prelude.{
  ℕ, zero, suc, ◌<◌, ◌≤◌, ◌≡◌, ◌≢◌, refl, sym, subst, ◌∙◌, ◌⊎◌, inl, inr, arith, update,
  update-same,
}
use c_playground.Handle.{
  Pc, pending, testing, reading, writing, returned, Handle, Move, begin, below, reached, read,
  write, System, Step, move, Reach, start, later,
}

Move-limit : {h h' : Handle} {p q : Pc} → Move h p h' q → h'.limit ≡ h.limit
Move-limit begin = refl
Move-limit (below l) = refl
Move-limit (reached l) = refl
Move-limit read = refl
Move-limit (write v l) = refl

-- The limit is reached, or some job has not returned.
abbrev Open : ℕ → System → Type 0
Open n s = (s.handle.limit ≤ s.handle.number) ⊎ ((i : ℕ) × (i < n) × (s.pc i ≢ returned))

module _ {n : ℕ} where
  -- A step that returns finds the limit reached, and behind any other one its own job goes on.
  Step-Open : {s s' : System} → Step n s s' → Open n s'
  Step-Open {s} (move i lt m) = next m
    where
      goes_on :
          {p : Pc} {h : Handle}
          → p ≢ returned
          → Open n (record { handle = h; pc = update s.pc i p })
      goes_on {p} here = inr (i, lt, λ e. here (sym (update-same s.pc i p) ∙ e))

      next :
          {p q : Pc} {h : Handle}
          → Move s.handle p h q
          → Open n (record { handle = h; pc = update s.pc i q })
      next begin = goes_on (λ e. absurd (cc))
      next (below l) = goes_on (λ e. absurd (cc))
      next (reached l) = inl l
      next read = goes_on (λ e. absurd (cc))
      next (write v l) = goes_on (λ e. absurd (cc))

  Reach-Open : {number limit : ℕ} {s : System} → 0 < n → Reach n number limit s → Open n s
  Reach-Open some_job start = inr (0, some_job, λ e. absurd (cc))
  Reach-Open some_job (later r step) = Step-Open step

  Reach-limit : {number limit : ℕ} {s : System} → Reach n number limit s → s.handle.limit ≡ limit
  Reach-limit start = refl
  Reach-limit (later r (move i lt m)) = Move-limit m ∙ Reach-limit r

  -- However the jobs interleave, and though they lose increments and set the number back: when all of
  -- them have returned, and there is one at least, the number has reached the limit.
  pub limit_reached :
      {number limit : ℕ} {s : System}
      → 0 < n
      → Reach n number limit s
      → ((i : ℕ) → i < n → s.pc i ≡ returned)
      → limit ≤ s.handle.number
  limit_reached some_job r over = elim (Reach-Open some_job r) [
    | inl l ↦ let same = Reach-limit r in omega (arith, l, same)
    | inr (i, lt, on) ↦ absurd (on (over i lt))
  ]

-- What a job knows that is alone.
abbrev Alone : Handle → Pc → Type 0
Alone h pending = h.number ≤ h.limit
Alone h testing = h.number ≤ h.limit
Alone h reading = h.number < h.limit
Alone h (writing v) = (v ≡ h.number) × (h.number < h.limit)
Alone h returned = h.number ≡ h.limit

Move-Alone : {h h' : Handle} {p q : Pc} → Move h p h' q → Alone h p → Alone h' q
Move-Alone begin a = a
Move-Alone (below l) a = l
Move-Alone (reached l) a = omega (arith, a, l)
Move-Alone read a = (refl, a)
Move-Alone (write v l) (e, a) = omega (arith, e, a)

Reach-Alone :
    {number limit : ℕ} {s : System}
    → number ≤ limit
    → Reach 1 number limit s
    → Alone s.handle (s.pc 0)
Reach-Alone le start = le
Reach-Alone le (later {s = s} r (move zero {h} {p} lt m)) =
    rw (update-same s.pc 0 p) (Move-Alone m (Reach-Alone le r))
Reach-Alone le (later r (move (suc i) lt m)) = absurd (omega (arith, lt))

-- A single job counts exactly to the limit.
pub alone_exact :
    {number limit : ℕ} {s : System}
    → number ≤ limit
    → Reach 1 number limit s
    → s.pc 0 ≡ returned
    → s.handle.number ≡ limit
alone_exact le r over =
    let a : Alone _ returned = subst (Alone _) over (Reach-Alone le r) in a ∙ Reach-limit r
