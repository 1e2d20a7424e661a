-- ===== src/Turns/Main/Laws.antt =====
-- How `main` of producer_consumer.c ends.
use c_playground.Prelude.{
  ℕ, ◌+◌, ◌-◌, ◌≤◌, ◌≡◌, ◌^◌, refl, sym, ap, ◌∙◌, subst, true, some, List, arith, ◌⊎◌, inl, inr,
}
use c_playground.Machine.{ℤ, pos}
use c_playground.Turns.{Shared, start_state}
use c_playground.Turns.Bodies.{IsBuffer, produce_turn-Produced}
use c_playground.Turns.Invariant.{IsAllocated, Reach-Inv}
use c_playground.Turns.Safety.{joined, never_stuck}
use c_playground.Turns.System.{
  Pc, testing, exited, Produce, test, lock, turn, post, Consume, read_test, read_lock, read_turn,
  read_post, System, by_producer, by_consumer,
}
use c_playground.Turns.System as Threads
use c_playground.Turns.Main.{
  Main, creating_producer, creating_consumer, joining_consumer, joining_producer, ended,
  has_producer, has_consumer, Process, Step, create_producer, no_producer, create_consumer,
  no_consumer, join_consumer, join_producer, produce, consume, Reach, start, later,
}

-- What is known of the threads by where `main` stands.
abbrev At : Main → System → Type 0
At creating_producer s = (s.consumer ≡ testing) × (s.mem.num_has_read ≡ 0)
At creating_consumer s = (s.consumer ≡ testing) × (s.mem.num_has_read ≡ 0)
At joining_consumer s = Unit
At joining_producer s = s.consumer ≡ exited
At (ended status) s =
    ((status ≡ pos 0) × (s.producer ≡ exited) × (s.consumer ≡ exited))
    ⊎ ((status ≡ pos 1) × (s.mem.num_has_read ≡ 0))

same_some : {a b : Shared} → some a ≡ some b → a ≡ b
same_some e = cc

-- The producer reads no number.
Produce-read :
    {m t : Shared} {p p' : Pc}
    → IsBuffer m
    → m.num_has_gen + 5 ≤ 2 ^ 31
    → Produce m p t p'
    → t.num_has_read ≡ m.num_has_read
Produce-read is ints test = refl
Produce-read is ints (lock free) = refl
Produce-read {m} is ints (turn rand contents e) =
    let made = produce_turn-Produced rand contents m is ints in
    let same = same_some (sym e ∙ made.1) in
    ap (λ (t : Shared). t.num_has_read) same ∙ made.2.num_has_read
Produce-read is ints post = refl

Produce-At :
    (k : Main) (s : System) (t : Shared) (p : Pc)
    → has_producer k ≡ true
    → t.num_has_read ≡ s.mem.num_has_read
    → At k s
    → At k (record s { mem = t; producer = p })
Produce-At creating_producer s t p has same at = absurd (cc)
Produce-At creating_consumer s t p has same at = (at.0, same ∙ at.1)
Produce-At joining_consumer s t p has same at = tt
Produce-At joining_producer s t p has same at = at
Produce-At (ended status) s t p has same at = absurd (cc)

Consume-exited :
    {num_gen : ℕ} {m t : Shared} {p p' : Pc} → Consume num_gen m p t p' → p ≡ exited → p' ≡ exited
Consume-exited read_test e = absurd (cc)
Consume-exited (read_lock free) e = absurd (cc)
Consume-exited (read_turn run) e = absurd (cc)
Consume-exited read_post e = absurd (cc)

Consume-At :
    {num_gen : ℕ} (k : Main) (s : System) {t : Shared} {p : Pc}
    → has_consumer k ≡ true
    → Consume num_gen s.mem s.consumer t p
    → At k s
    → At k (record s { mem = t; consumer = p })
Consume-At creating_producer s has mv at = absurd (cc)
Consume-At creating_consumer s has mv at = absurd (cc)
Consume-At joining_consumer s has mv at = tt
Consume-At joining_producer s has mv at = Consume-exited mv at
Consume-At (ended status) s has mv at = absurd (cc)

module _ {num_gen buffer_capacity : ℕ} {cells : List ℕ} where
  pub threads_reach :
      {s : Process}
      → Reach num_gen buffer_capacity cells s
      → Threads.Reach num_gen buffer_capacity cells s.threads
  threads_reach start = Threads.start
  threads_reach (later r (create_producer e)) = threads_reach r
  threads_reach (later r (no_producer e)) = threads_reach r
  threads_reach (later r (create_consumer e)) = threads_reach r
  threads_reach (later r (no_consumer e)) = threads_reach r
  threads_reach (later r (join_consumer e out)) = threads_reach r
  threads_reach (later r (join_producer e out)) = threads_reach r
  threads_reach (later r (produce e mv)) = Threads.later (threads_reach r) (by_producer mv)
  threads_reach (later r (consume e mv)) = Threads.later (threads_reach r) (by_consumer mv)

module _ {num_gen buffer_capacity : ℕ} {cells : List ℕ}
    (is : IsAllocated num_gen buffer_capacity cells) where
  Reach-At : {s : Process} → Reach num_gen buffer_capacity cells s → At s.main s.threads
  unfolding start_state
  Reach-At start = (refl, refl)
  Reach-At (later {s} r step) = next step (Reach-At r)
    where
      place : {k : Main} → s.main ≡ k → At s.main s.threads → At k s.threads
      place e at = subst (λ k. At k s.threads) e at

      next : {t : Process} → Step num_gen s t → At s.main s.threads → At t.main t.threads
      next (create_producer e) at = place e at
      next (no_producer e) at = inr (refl, (place e at).1)
      next (create_consumer e) at = tt
      next (no_consumer e) at = inr (refl, (place e at).1)
      next (join_consumer e out) at = out
      next (join_producer e out) at = inl (refl, out, place e at)
      next (produce {t} {p} e mv) at =
          let inv = Reach-Inv num_gen is (threads_reach r) in
          Produce-At s.main s.threads t p e
            (Produce-read inv.buffer (omega (arith, inv.bounded, is.ints)) mv) at
      next (consume e mv) at = Consume-At s.main s.threads e mv at

  -- `main` ends with 0 or 1. With 0 exactly `num_gen` numbers were read, at least as many and at most
  -- three more were generated, and those that were not read are still in the buffer; with 1 none was
  -- read.
  pub main_ends :
      {s : Process} {status : ℤ}
      → Reach num_gen buffer_capacity cells s
      → s.main ≡ ended status
      → ((status ≡ pos 0)
          × (s.threads.mem.num_has_read ≡ num_gen)
          × (num_gen ≤ s.threads.mem.num_has_gen)
          × (s.threads.mem.size ≡ s.threads.mem.num_has_gen - num_gen)
          × (s.threads.mem.size ≤ 3))
        ⊎ ((status ≡ pos 1) × (s.threads.mem.num_has_read ≡ 0))
  main_ends {s} r e = elim (subst (λ k. At k s.threads) e (Reach-At r)) [
    | inr failed ↦ inr failed
    | inl (zero_status, out_p, out_c) ↦
        let done = joined is (threads_reach r) out_p out_c in
        inl (zero_status, done.0, done.1, done.2, done.3)
  ]

  -- Until `main` has ended, it or one of the threads that are there can take a step: it joins threads
  -- that have exited, and waits for none that cannot go on.
  pub main_goes_on :
      {s : Process}
      → Reach num_gen buffer_capacity cells s
      → ((status : ℤ) × (s.main ≡ ended status)) ⊎ ((t : Process) × Step num_gen s t)
  main_goes_on {s} r = go s.main refl
    where
      go :
          (k : Main)
          → s.main ≡ k
          → ((status : ℤ) × (s.main ≡ ended status)) ⊎ ((t : Process) × Step num_gen s t)
      go creating_producer e = inr (_, create_producer e)
      go creating_consumer e = inr (_, create_consumer e)
      go (ended status) e = inl (status, e)
      go joining_consumer e = elim (never_stuck is (threads_reach r)) [
        | inl (out_p, out_c) ↦ inr (_, join_consumer e out_c)
        | inr (t, by_producer mv) ↦ inr (_, produce (rw e refl) mv)
        | inr (t, by_consumer mv) ↦ inr (_, consume (rw e refl) mv)
      ]
      go joining_producer e = elim (never_stuck is (threads_reach r)) [
        | inl (out_p, out_c) ↦ inr (_, join_producer e out_p)
        | inr (t, by_producer mv) ↦ inr (_, produce (rw e refl) mv)
        | inr (t, by_consumer mv) ↦ inr (_, consume (rw e refl) mv)
      ]
