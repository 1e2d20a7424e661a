-- ===== src/Signals/Known.antt =====
-- What a handler of signal_timer_example.c has done and seen, and the invariant.
use c_playground.Prelude.{◌≡◌, refl, Bool, true, false, List, [], ◌∷◌, ◌⊎◌, arith}
use c_playground.Signals.{
  Signal, Timers, timer, Flags, received, all_received, Place, stopping, setting, checking_alrm,
  checking_vtalrm, checking_prof, finishing, Frame, left_loop, Process, stop,
}

-- What a handler has done and seen.
abbrev pub Known : Timers → Flags → Signal → Place → Type 0
Known t f signal stopping = Unit
Known t f signal setting = timer signal t ≡ stop
Known t f signal checking_alrm = Unit
Known t f signal checking_vtalrm = f.receive_sigalrm ≡ true
Known t f signal checking_prof = (f.receive_sigalrm ≡ true) × (f.receive_sigvtalrm ≡ true)
Known t f signal finishing = all_received f ≡ true

abbrev pub Knowing : Timers → Flags → List Frame → Type 0
Knowing t f [] = Unit
Knowing t f (x ∷ xs) = Known t f x.signal x.place × Knowing t f xs

-- A handler that has still to check, or has seen what it has read.
abbrev pub checks : Place → Bool
checks stopping = false
checks setting = false
checks _ = true

abbrev pub Pending : List Frame → Type 0
Pending [] = ⊥
Pending (x ∷ xs) = (checks x.place ≡ true) ⊎ Pending xs

pub record Inv (p : Process) : Type 0 where
  pub knowing : Knowing p.timers p.flags p.frames
  pub done : p.flags.loop_is_done ≡ true → all_received p.flags ≡ true
  pub pending : all_received p.flags ≡ true → (p.flags.loop_is_done ≡ true) ⊎ Pending p.frames
  pub stopped : (signal : Signal) → received signal p.flags ≡ true → timer signal p.timers ≡ stop
  pub left : p.main ≡ left_loop → p.flags.loop_is_done ≡ true

-- Timers that are stopped stay stopped, flags that are set stay set.
pub record Grown (t t' : Timers) (f f' : Flags) : Type 0 where
  pub stays : (signal : Signal) → timer signal t ≡ stop → timer signal t' ≡ stop
  pub alrm : f.receive_sigalrm ≡ true → f'.receive_sigalrm ≡ true
  pub vtalrm : f.receive_sigvtalrm ≡ true → f'.receive_sigvtalrm ≡ true
  pub prof : f.receive_sigprof ≡ true → f'.receive_sigprof ≡ true

pub all_three :
    (f : Flags)
    → all_received f ≡ true
    → (f.receive_sigalrm ≡ true) × (f.receive_sigvtalrm ≡ true) × (f.receive_sigprof ≡ true)
all_three f e = ground (arith, e)

pub all-Grown :
    {t t' : Timers} (f f' : Flags)
    → Grown t t' f f'
    → all_received f ≡ true
    → all_received f' ≡ true
all-Grown f f' g k =
    let seen = all_three f k in
    let a = g.alrm seen.0 in let v = g.vtalrm seen.1 in let p = g.prof seen.2 in rw (a, v, p) refl

Known-Grown :
    {t t' : Timers} {f f' : Flags} (signal : Signal) (place : Place)
    → Grown t t' f f'
    → Known t f signal place
    → Known t' f' signal place
Known-Grown signal stopping g k = tt
Known-Grown signal setting g k = g.stays signal k
Known-Grown signal checking_alrm g k = tt
Known-Grown signal checking_vtalrm g k = g.alrm k
Known-Grown signal checking_prof g k = (g.alrm k.0, g.vtalrm k.1)
Known-Grown {f = f} {f' = f'} signal finishing g k = all-Grown f f' g k

pub Knowing-Grown :
    {t t' : Timers} {f f' : Flags} (xs : List Frame)
    → Grown t t' f f'
    → Knowing t f xs
    → Knowing t' f' xs
Knowing-Grown [] g k = tt
Knowing-Grown (x ∷ xs) g k = (Known-Grown x.signal x.place g k.0, Knowing-Grown xs g k.1)
