-- ===== src/HelloThreads/Laws.antt =====
-- Which threads hello_pthread.c joins.
use c_playground.Prelude.{
  zero, suc, ◌≡◌, ◌↔◌, ◌⊎◌, refl, sym, inl, inr, Bool, true, false, [], ◌∷◌, if◌then◌else◌,
}
use c_playground.Machine.{ℤ, pos, negsuc}
use c_playground.Calls.{Protocol, Follows, made, nonzero}
use c_playground.HelloThreads.{thread1, thread2, Call, create, join, hello}

-- The threads that were created and not joined.
pub record Alive : Type 0 where
  pub first : Bool
  pub second : Bool

abbrev pub nobody : Alive
nobody = record { first = false; second = false }

abbrev pub allowed : Call → Alive → Bool
allowed (create t) s = true
allowed (join thread1) s = s.first
allowed (join thread2) s = s.second

abbrev pub after : Call → ℤ → Alive → Alive
after (create thread1) r s = record s { first = if nonzero r then s.first else true }
after (create thread2) r s = record s { second = if nonzero r then s.second else true }
after (join thread1) r s = record s { first = false }
after (join thread2) r s = record s { second = false }

abbrev pub joining : Protocol Call Alive
joining = record { allowed = allowed; after = after }

-- What `main` joins was created exactly when the first creation failed or the second one did not: a
-- failure of the second one alone goes unnoticed.
pub hello-Follows :
    (r r' x y : ℤ)
    → Follows joining nobody (made hello (r ∷ r' ∷ x ∷ y ∷ []))
      ↔ ((nonzero r ≡ true) ⊎ (nonzero r' ≡ false))
unfolding hello
hello-Follows (pos zero) (pos zero) x y = (λ f. inr refl, λ e. (refl, (refl, (refl, (refl, tt)))))
hello-Follows (pos zero) (pos (suc n)) x y =
    (λ f. inr (sym f.1.1.1.0), λ e. elim e [ inl e' ↦ absurd (cc) | inr e' ↦ absurd (cc) ])
hello-Follows (pos zero) (negsuc n) x y =
    (λ f. inr (sym f.1.1.1.0), λ e. elim e [ inl e' ↦ absurd (cc) | inr e' ↦ absurd (cc) ])
hello-Follows (pos (suc n)) r' x y = (λ f. inl refl, λ e. (refl, tt))
hello-Follows (negsuc n) r' x y = (λ f. inl refl, λ e. (refl, tt))
