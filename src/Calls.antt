-- ===== src/Calls.antt =====
-- Programs that mostly call the system: which call comes next, by what the calls before it returned.
-- `Sockets` (Linux/Socket) and `Daemon` (Linux/Daemon) are written with it.
use c_playground.Prelude.{
  zero, suc, ◌≡◌, refl, Bool, true, false, ◌||◌, Option, none, some, List, [], ◌∷◌, if◌then◌else◌,
}
use c_playground.Machine.{ℤ, pos, negsuc}

-- How a program or a job of a thread pool ends.
pub data Ending : Type 0 where
  exits : ℤ → Ending  -- `main` returns or calls `exit`
  goes_back : Ending  -- a job returns to its worker
  stored : ℤ → Ending  -- a job returns that has put this number where its argument points
  undefined : Ending

abbrev pub exit_success : Ending
exit_success = exits (pos 0)

abbrev pub exit_failure : Ending
exit_failure = exits (pos 1)

-- `C` are the calls; each returns an `int`.
pub data Program (C : Type 0) : Type 0 where
  ends : Ending → Program C
  call : C → (ℤ → Program C) → Program C

-- `r < 0`, `r > 0`, and `r` as a condition.
abbrev pub negative : ℤ → Bool
negative (pos n) = false
negative (negsuc n) = true

abbrev pub positive : ℤ → Bool
positive (pos (suc n)) = true
positive _ = false

abbrev pub nonzero : ℤ → Bool
nonzero (pos zero) = false
nonzero (pos (suc n)) = true
nonzero (negsuc n) = true

module _ {C : Type 0} where
  -- The calls that were made, with what they returned, when the system answers so many of them.
  abbrev pub made : Program C → List ℤ → List (C × ℤ)
  made (ends e) answers = []
  made (call c k) [] = []
  made (call c k) (r ∷ answers) = (c, r) ∷ made (k r) answers

  -- How it ended, if it did.
  abbrev pub ending : Program C → List ℤ → Option Ending
  ending (ends e) answers = some e
  ending (call c k) [] = none
  ending (call c k) (r ∷ answers) = ending (k r) answers

-- What is known of the calls of a kind: where each may be made, and what it leaves behind.
pub record Protocol (C S : Type 0) : Type 0 where
  pub allowed : C → S → Bool
  pub after : C → ℤ → S → S

module _ {C S : Type 0} (P : Protocol C S) where
  -- Every call that was made was allowed where it was made.
  abbrev pub Follows : S → List (C × ℤ) → Type 0
  Follows s [] = Unit
  Follows s ((c, r) ∷ calls) = (P.allowed c s ≡ true) × Follows (P.after c r s) calls

  -- Whatever the calls return, the program makes allowed calls only.
  abbrev pub Safe : Program C → S → Type 0
  Safe (ends e) s = Unit
  Safe (call c k) s = (P.allowed c s ≡ true) × ((r : ℤ) → Safe (k r) (P.after c r s))

  pub Safe-Follows :
      (p : Program C) (s : S) (answers : List ℤ) → Safe p s → Follows s (made p answers)
  Safe-Follows (ends e) s answers safe = tt
  Safe-Follows (call c k) s [] safe = tt
  Safe-Follows (call c k) s (r ∷ answers) (ok, safe) =
      (ok, Safe-Follows (k r) (P.after c r s) answers (safe r))

module _ {C : Type 0} (mark : C → ℤ → Bool) where
  -- Some call that was made is marked.
  abbrev pub some_marked : List (C × ℤ) → Bool
  some_marked [] = false
  some_marked ((c, r) ∷ calls) = mark c r || some_marked calls

or_assoc : (a b c : Bool) → ((a || b) || c) ≡ (a || (b || c))
or_assoc true b c = refl
or_assoc false b c = refl

or_false : (a : Bool) → (a || false) ≡ a
or_false true = refl
or_false false = refl

module _ {C : Type 0} (mark : C → ℤ → Bool) (yes_end no_end : Ending) where
  -- Whatever the calls return, the program ends with the one ending if a call is marked, or was before,
  -- and with the other if none is.
  abbrev pub EndsBy : Program C → Bool → Type 0
  EndsBy (ends e) marked = e ≡ (if marked then yes_end else no_end)
  EndsBy (call c k) marked = (r : ℤ) → EndsBy (k r) (marked || mark c r)

  pub either :
      (b marked : Bool) (p q : Program C)
      → EndsBy p marked
      → EndsBy q marked
      → EndsBy (if b then p else q) marked
  either true marked p q h k = h
  either false marked p q h k = k

  pub ending-EndsBy :
      (p : Program C) (marked : Bool) (answers : List ℤ) (e : Ending)
      → EndsBy p marked
      → ending p answers ≡ some e
      → e ≡ (if marked || some_marked mark (made p answers) then yes_end else no_end)
  ending-EndsBy (ends e') marked answers e m h =
      let same : e' ≡ e = cc in rw (or_false marked, ← same) m
  ending-EndsBy (call c k) marked [] e m h = absurd (cc)
  ending-EndsBy (call c k) marked (r ∷ answers) e m h =
      let rest = ending-EndsBy (k r) (marked || mark c r) answers e (m r) h in
      rw (← or_assoc marked (mark c r) (some_marked mark (made (k r) answers))) rest
