-- ===== src/Counters/Invariant.antt =====
-- What holds of condition_variables.c between two steps.
use c_playground.Prelude.{ℕ, ◌+◌, ◌≡◌, ◌≤◌, refl, ap, true, arith}
use c_playground.Counters.{
  Pc, testing, asleep, signalled, leaving, exited, System, Step, first, second, sleep, pass,
  spurious, wake, notify, Reach, start, later,
}
use c_playground.Counters.Moved.{holds, holds_count, past, sleeps, Inv, notified, Both-Moved}

-- `func1` goes from `p` to `p'`, and `condition_mutex` with it.
move-Inv :
    {s : System} (inv : Inv s) (p p' : Pc) (free : ℕ)
    → s.func1 ≡ p
    → free + holds p' ≡ s.shared.condition_mutex + holds p
    → holds_count p' ≡ holds_count p
    → s.shared.count ≤ 9 + past p' + past s.func2
    → (p' ≡ exited → 10 ≤ s.shared.count)
    → (p' ≡ asleep → s.shared.count ≤ 6)
    → Inv (record s { shared = record s.shared { condition_mutex = free }; func1 = p' })
move-Inv inv p p' free at token token_count bound out small = record {
  token = omega (arith, inv.token, token, ap holds at);
  token_count = omega (arith, inv.token_count, token_count, ap holds_count at);
  bound = bound;
  out1 = out;
  out2 = inv.out2;
  up = inv.up;
  served = λ e. omega (arith, small e);
}

Step-Inv : {s t : System} → Inv s → Step true s t → Inv t
Step-Inv {s} inv (first {m} {p} b) =
    let x = Both-Moved (omega (arith, inv.token)) (omega (arith, inv.token_count)) b in
    record {
      token = omega (arith, inv.token, x.token);
      token_count = omega (arith, inv.token_count, x.token_count);
      bound = x.bound (past s.func2) inv.bound;
      out1 = x.out;
      out2 = λ e. omega (arith, inv.out2 e, x.grows);
      up = inv.up;
      served = λ e. absurd (let up = x.up in let is = ap sleeps e in cc);
    }
Step-Inv {s} inv (second {m} {p} b) =
    let x = Both-Moved (omega (arith, inv.token)) (omega (arith, inv.token_count)) b in
    record {
      token = omega (arith, inv.token, x.token);
      token_count = omega (arith, inv.token_count, x.token_count);
      bound = omega (arith, x.bound (past s.func1) (omega (arith, inv.bound)));
      out1 = λ e. omega (arith, inv.out1 e, x.grows);
      out2 = x.out;
      up = x.up;
      served = λ e. x.served (inv.served e);
    }
Step-Inv {s} inv (sleep at inside) =
    let small : s.shared.count ≤ 6 = ground (arith, inside) in
    move-Inv inv testing asleep 1 at (omega (arith, inv.token, ap holds at)) refl
      (omega (arith, small)) (λ e. absurd (cc)) (λ e. small)
Step-Inv {s} inv (pass at outside) =
    move-Inv inv testing leaving s.shared.condition_mutex at refl refl
      (omega (arith, inv.bound, ap past at)) (λ e. absurd (cc)) (λ e. absurd (cc))
Step-Inv {s} inv (spurious on at) =
    move-Inv inv asleep signalled s.shared.condition_mutex at refl refl
      (omega (arith, inv.bound, ap past at)) (λ e. absurd (cc)) (λ e. absurd (cc))
Step-Inv {s} inv (wake at free) =
    move-Inv inv signalled testing 0 at (omega (arith, free)) refl
      (omega (arith, inv.bound, ap past at)) (λ e. absurd (cc)) (λ e. absurd (cc))
Step-Inv {s} inv (notify at) =
    let h = ap holds at in
    let hc = ap holds_count at in
    let b = ap past at in
    let x = notified s.shared.count s.func1 in
    record {
      token = omega (arith, inv.token, h, x.0);
      token_count = omega (arith, inv.token_count, hc, x.1);
      bound = omega (arith, inv.bound, b, x.2);
      out1 = λ e. inv.out1 (x.3 e);
      out2 = λ e. absurd (cc);
      up = refl;
      served = λ e. omega (arith, x.4 e);
    }

-- Every reachable state has the invariant.
pub Reach-Inv : {s : System} → Reach s → Inv s
Reach-Inv start = record {
  token = refl;
  token_count = refl;
  bound = omega arith;
  out1 = λ e. absurd (cc);
  out2 = λ e. absurd (cc);
  up = refl;
  served = λ e. absurd (cc);
}
Reach-Inv (later r st) = Step-Inv (Reach-Inv r) st
