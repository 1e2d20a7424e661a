-- ===== src/Producers/Progress.antt =====
-- The producers and consumers are never all blocked before the work is done.
use mathlib.Core.Logic.{if_pos, if_neg}
use c_playground.Prelude.{
  ℕ, ◌+◌, ◌<◌, ◌≤◌, ◌≡◌, ◌⊎◌, inl, inr, true, false, Option, arith, total, pos_entry, dec_lt,
  ℕ_discrete, refl, le-total, subst, ◌∙◌, ap,
}
use c_playground.Producers.{Buffer}
use c_playground.Producers.System.{
  Setup, System, pick, Reach, start, later, Role, producer, consumer, Pc, outside, holding, inside,
  unlocking, posting, finished, checking, releasing, Move, wait_empty, wait_full, lock, produce,
  consume, unlock, post_full, post_empty, check, release, threads, first_pc,
}
use c_playground.Producers.Invariant.{
  IsCreated, Reach-Inv, Inv-InBounds, size_room, produce_body_total, consume_body_total,
}
use c_playground.Producers.Invariant.Defs.{Inv, locks, slots, drains}

-- Which of the three loops a thread runs.
data Kind : Type 0 where
  worker : Role → Kind
  main : Kind

abbrev kind : Pc → Kind
kind (outside r) = worker r
kind (holding r) = worker r
kind (inside r) = worker r
kind (unlocking r _) = worker r
kind (posting r _) = worker r
kind (finished r) = worker r
kind _ = main

Move-kind :
    {max : ℕ} {b b' : Buffer} {p p' : Pc} {moved : Option ℕ}
    → Move max b p b' p' moved
    → kind p' ≡ kind p
Move-kind (wait_empty h) = refl
Move-kind (post_full true) = refl
Move-kind (post_full false) = refl
Move-kind (post_empty true) = refl
Move-kind (post_empty false) = refl
Move-kind (release true) = refl
Move-kind (release false) = refl
Move-kind mv = refl

kind_kept :
    {c : Setup} {b : Buffer} {s : System}
    → Reach c b s
    → (i : ℕ) → kind (s.pc i) ≡ kind (first_pc c i)
kind_kept start i = refl
kind_kept (later {s} r (pick j lt mv)) i = elim (ℕ_discrete j i) [
  | yes e ↦ rw (if_pos _ e) (Move-kind mv ∙ ap (λ k. kind (s.pc k)) e ∙ kind_kept r i)
  | no n ↦ rw (if_neg _ n) (kind_kept r i)
]

kind-main : (p : Pc) → kind p ≡ main → slots p + drains p ≡ 0
kind-main (outside _) e = refl
kind-main (holding _) e = cc
kind-main (inside _) e = cc
kind-main (unlocking _ _) e = cc
kind-main (posting _ _) e = cc
kind-main (finished _) e = refl
kind-main _ e = refl

-- A worker with neither the mutex nor a slot is at the head of its loop, or has left it.
kind-worker :
    (q : Role) (p : Pc)
    → kind p ≡ worker q
    → locks p ≡ 0
    → slots p + drains p ≡ 0
    → (p ≡ outside q) ⊎ (p ≡ finished q)
kind-worker q (outside _) e l h = inl (cc)
kind-worker q (finished _) e l h = inr (cc)
kind-worker q (holding producer) e l h = absurd (omega arith)
kind-worker q (holding consumer) e l h = absurd (omega arith)
kind-worker q (inside _) e l h = absurd (omega arith)
kind-worker q (unlocking _ _) e l h = absurd (omega arith)
kind-worker q (posting producer _) e l h = absurd (omega arith)
kind-worker q (posting consumer _) e l h = absurd (omega arith)
kind-worker q _ e l h = absurd (cc)

-- A thread at `p` can take no step.
abbrev pub Stuck : ℕ → Buffer → Pc → Type 0
Stuck max b p = (b' : Buffer) (p' : Pc) (moved : Option ℕ) → ¬ Move max b p b' p' moved

-- No producer or consumer can take a step.
abbrev pub Blocked : Setup → System → Type 0
Blocked c s = (i : ℕ) → i < c.producers + c.consumers → Stuck c.max_generate s.mem (s.pc i)

module _ {c : Setup} {b : Buffer} {s : System} (f : IsCreated c b) (r : Reach c b s) where
  inv : Inv c s.mem s.pc
  inv = Reach-Inv f r

  abbrev workers : ℕ
  workers = c.producers + c.consumers

  -- A thread that holds the mutex can move.
  locks-move :
      (p : Pc) → 0 < locks p → s.mem.size + slots p ≤ c.capacity → Stuck c.max_generate s.mem p → ⊥
  locks-move (inside producer) h room stuck =
      let (o, e) =
        produce_body_total c.max_generate 0 s.mem (Inv-InBounds inv) (omega (arith, inv.room)) in
      stuck _ _ _ (produce 0 e)
  locks-move (inside consumer) h room stuck =
      let (o, e) = consume_body_total c.max_generate s.mem (Inv-InBounds inv) in
      stuck _ _ _ (consume e)
  locks-move (unlocking r' leaves) h room stuck = stuck _ _ _ (unlock r' leaves)
  locks-move checking h room stuck = stuck _ _ _ check
  locks-move (releasing leaves) h room stuck = stuck _ _ _ (release leaves)
  locks-move _ h room stuck = omega arith

  -- So can a thread with a slot while the mutex is free.
  slots-move :
      (p : Pc)
      → 0 < slots p + drains p
      → 0 < s.mem.mutex
      → locks p ≡ 0
      → Stuck c.max_generate s.mem p
      → ⊥
  slots-move (holding r') h free l stuck = stuck _ _ _ (lock r' free)
  slots-move (posting producer leaves) h free l stuck = stuck _ _ _ (post_full leaves)
  slots-move (posting consumer leaves) h free l stuck = stuck _ _ _ (post_empty leaves)
  slots-move (inside _) h free l stuck = omega arith
  slots-move (unlocking _ _) h free l stuck = omega arith
  slots-move _ h free l stuck = omega arith

  module _ (stuck : Blocked c s) (quiet : locks (s.pc (c.producers + c.consumers)) ≡ 0) where
    no_locks : total locks (threads c) s.pc ≡ 0
    no_locks = elim (pos_entry locks (threads c) s.pc) [
      | inl e ↦ e
      | inr (i, lt, p) ↦ elim (dec_lt i workers) [
        | yes h ↦ absurd (locks-move (s.pc i) p (size_room inv i lt) (stuck i h))
        | no h ↦
            let e : i ≡ workers = omega arith in absurd (omega (arith, ap (λ k. locks (s.pc k)) e))
      ]
    ]

    free : 0 < s.mem.mutex
    free = omega (arith, no_locks, inv.guarded)

    unlocked : (i : ℕ) → i < threads c → locks (s.pc i) ≡ 0
    unlocked i lt = omega (arith, no_locks, le-total locks (threads c) s.pc i lt)

    main_kind : kind (s.pc workers) ≡ main
    main_kind = kind_kept r workers ∙ ground arith

    no_slot : (i : ℕ) → i < threads c → 0 < slots (s.pc i) + drains (s.pc i) → ⊥
    no_slot i lt h = elim (dec_lt i workers) [
      | yes w ↦ slots-move (s.pc i) h free (unlocked i lt) (stuck i w)
      | no w ↦
          let e : i ≡ workers = omega arith in
          omega (
            arith,
            kind-main (s.pc workers) main_kind,
            ap (λ k. slots (s.pc k)) e,
            ap (λ k. drains (s.pc k)) e,
          )
    ]

    no_slots : total slots (threads c) s.pc ≡ 0
    no_slots = elim (pos_entry slots (threads c) s.pc) [
      | inl e ↦ e
      | inr (i, lt, p) ↦ absurd (no_slot i lt (omega arith))
    ]

    no_drains : total drains (threads c) s.pc ≡ 0
    no_drains = elim (pos_entry drains (threads c) s.pc) [
      | inl e ↦ e
      | inr (i, lt, p) ↦ absurd (no_slot i lt (omega arith))
    ]

    at_rest :
        (q : Role) (i : ℕ)
        → i < threads c
        → kind (first_pc c i) ≡ worker q
        → (s.pc i ≡ outside q) ⊎ (s.pc i ≡ finished q)
    at_rest q i lt k =
        kind-worker q (s.pc i) (kind_kept r i ∙ k) (unlocked i lt)
          (elim (dec_lt 0 (slots (s.pc i) + drains (s.pc i))) [
            | yes p ↦ absurd (no_slot i lt p)
            | no n ↦ omega arith
          ])

    full_done : 0 < c.consumers → 0 < s.mem.full → s.mem.num_con ≡ c.max_generate
    full_done some_consumer pos = elim (at_rest consumer c.producers (omega arith) (ground arith)) [
      | inl e ↦ absurd (
          subst (Stuck c.max_generate s.mem) e (stuck c.producers (omega arith)) _ _ _
            (wait_full pos))
      | inr e ↦ ground (arith, inv.settled c.producers)
    ]

    empty_done : 0 < c.producers → 0 < s.mem.empty → s.mem.num_gen ≡ c.max_generate
    empty_done some_producer pos = elim (at_rest producer 0 (omega arith) (ground arith)) [
      | inl e ↦
          absurd
            (subst (Stuck c.max_generate s.mem) e (stuck 0 (omega arith)) _ _ _ (wait_empty pos))
      | inr e ↦ ground (arith, inv.settled 0)
    ]

    -- With at least one producer, one consumer and one slot: if no producer and no consumer can
    -- move while `main` is not holding the mutex, then every number was generated and consumed.
    pub blocked_when_done :
        0 < c.producers
        → 0 < c.consumers
        → 0 < c.capacity
        → (s.mem.num_gen ≡ c.max_generate) × (s.mem.num_con ≡ c.max_generate)
    blocked_when_done p q k = elim (dec_lt 0 s.mem.full) [
      | yes pos ↦ let e = full_done q pos in (omega (arith, e, inv.balance, inv.bounded), e)
      | no none_full ↦
          let e = empty_done p (omega (arith, inv.tokens, no_slots, no_drains)) in
          (e, omega (arith, e, inv.backed, no_drains, inv.balance))
    ]
