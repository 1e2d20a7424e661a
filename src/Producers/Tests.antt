-- ===== src/Producers/Tests.antt =====
-- Runs of multiple_producer_consumer.c with one producer, one consumer and one slot.
use mathlib.Core.Logic.{dite}
use c_playground.Prelude.{
  ℕ, zero, suc, ◌+◌, ◌*◌, ◌≤◌, ◌≡◌, refl, Option, none, some, List, [], ◌∷◌, arith, dec_lt,
  ℕ_discrete, count,
}
use c_playground.Producers.{Buffer, Outcome, buffer_create, produce_body, consume_body, all_done}
use c_playground.Producers.System.{
  Setup, System, pick, Reach, start, later, producer, consumer, Pc, outside, holding, inside,
  unlocking, posting, finished, watching, checking, releasing, returned, Move, wait_empty,
  wait_full, lock, produce, consume, unlock, post_full, post_empty, watch, check, release, threads,
}
use c_playground.Producers.Invariant.{IsCreated}
use c_playground.Producers.Safety.{bodies_in_bounds}
use c_playground.Producers.Log.{stored, balanced}
use c_playground.Producers.Progress.{Blocked, blocked_when_done}
use c_playground.Producers.Ending.{worked, work_ends}

-- A move of a thread at `p`, if it has one; `rand` returns 107.
record Next (max : ℕ) (b : Buffer) (p : Pc) : Type 0 where
  after : Buffer
  at : Pc
  moved : Option ℕ
  move : Move max b p after at moved

next_produce :
    (max : ℕ) (b : Buffer) (o : Option Outcome)
    → produce_body max 107 b ≡ o
    → Option (Next max b (inside producer))
next_produce max b none e = none
next_produce max b (some o) e =
    some (record { after = o.buffer; at = _; moved = o.moved; move = produce 107 e })

next_consume :
    (max : ℕ) (b : Buffer) (o : Option Outcome)
    → consume_body max b ≡ o
    → Option (Next max b (inside consumer))
next_consume max b none e = none
next_consume max b (some o) e =
    some (record { after = o.buffer; at = _; moved = o.moved; move = consume e })

next_move : (max : ℕ) (b : Buffer) (p : Pc) → Option (Next max b p)
unfolding next_produce next_consume
next_move max b (outside producer) =
    dite (dec_lt 0 b.empty)
      (λ h. some (record { after = _; at = _; moved = _; move = wait_empty h })) (λ _. none)
next_move max b (outside consumer) =
    dite (dec_lt 0 b.full) (λ h. some (record { after = _; at = _; moved = _; move = wait_full h }))
      (λ _. none)
next_move max b (holding r) =
    dite (dec_lt 0 b.mutex) (λ h. some (record { after = _; at = _; moved = _; move = lock r h }))
      (λ _. none)
next_move max b (inside producer) = next_produce max b (produce_body max 107 b) refl
next_move max b (inside consumer) = next_consume max b (consume_body max b) refl
next_move max b (unlocking r l) = some (record { after = _; at = _; moved = _; move = unlock r l })
next_move max b (posting producer l) =
    some (record { after = _; at = _; moved = _; move = post_full l })
next_move max b (posting consumer l) =
    some (record { after = _; at = _; moved = _; move = post_empty l })
next_move max b watching =
    dite (dec_lt 0 b.mutex) (λ h. some (record { after = _; at = _; moved = _; move = watch h }))
      (λ _. none)
next_move max b checking = some (record { after = _; at = _; moved = _; move = check })
next_move max b (releasing l) = some (record { after = _; at = _; moved = _; move = release l })
next_move max b _ = none

pub record Run (c : Setup) (b : Buffer) : Type 0 where
  pub last : System
  pub reach : Reach c b last

turn : {c : Setup} {b : Buffer} → Run c b → ℕ → Run c b
unfolding next_move dec_lt
turn {c} r i = elim (dec_lt i (threads c)) [
  | no _ ↦ r
  | yes lt ↦ elim (next_move c.max_generate r.last.mem (r.last.pc i)) [
    | none ↦ r
    | some n ↦ record { last = _; reach = later r.reach (pick i lt n.move) }
  ]
]

run : {c : Setup} {b : Buffer} → Run c b → List ℕ → Run c b
unfolding turn ℕ_discrete produce_body consume_body all_done
run r [] = r
run r (i ∷ is) = run (turn r i) is

abbrev pub one_each : Setup
one_each = record { producers = 1; consumers = 1; capacity = 1; max_generate = 1 }

abbrev pub one_slot : Buffer
one_slot = record {
  num_gen = 0;
  num_con = 0;
  capacity = 1;
  size = 0;
  items = 55 ∷ [];
  dataptr = 0;
  mutex = 1;
  empty = 1;
  full = 0;
}

one_slot-IsCreated : IsCreated one_each one_slot
unfolding buffer_create
one_slot-IsCreated = record {
  cells = 55 ∷ [];
  room = refl;
  created = refl;
  small = omega arith;
  limit = omega arith;
}

abbrev begin : Run one_each one_slot
begin = record { last = _; reach = start }

-- The producer stands at its locked body.
abbrev in_body : Run one_each one_slot
in_body = run begin (0 ∷ 0 ∷ [])

-- One round of each, then both leave, then `main`.
pub all_out : Run one_each one_slot
unfolding run
all_out =
    run begin (
      0 ∷ 0 ∷ 0 ∷ 0 ∷ 0 ∷ 1 ∷ 1 ∷ 1 ∷ 1 ∷ 1 ∷ 0 ∷ 0 ∷ 0 ∷ 0 ∷ 0 ∷ 1 ∷ 1 ∷ 1 ∷ 1 ∷ 1 ∷ 2 ∷ 2 ∷ 2
      ∷ [])

-- After the producer's first round its number is in the slot.
abbrev one_stored : Run one_each one_slot
one_stored = run begin (0 ∷ 0 ∷ 0 ∷ 0 ∷ 0 ∷ [])

pub all_out-ends :
    (all_out.last.pc 2 ≡ returned) × (all_out.last.mem.num_con ≡ 1) × (all_out.last.mem.full ≡ 0)
unfolding all_out
all_out-ends = (refl, refl, refl)

bodies_in_bounds_example :
    ((o : Outcome) × (produce_body 1 107 one_stored.last.mem ≡ some o))
    × ((o : Outcome) × (consume_body 1 one_stored.last.mem ≡ some o))
bodies_in_bounds_example = bodies_in_bounds one_slot-IsCreated one_stored.reach 107

balanced_example :
    count 7 one_stored.last.produced
    ≡ count 7 one_stored.last.consumed + count 7 (stored one_stored.last.mem)
balanced_example = balanced one_slot-IsCreated one_stored.reach 7

abbrev CanMove : Pc → Type 0
CanMove (finished _) = ⊥
CanMove _ = Unit

Move-CanMove :
    {max : ℕ} {b b' : Buffer} {p p' : Pc} {moved : Option ℕ} → Move max b p b' p' moved → CanMove p
Move-CanMove (wait_empty h) = tt
Move-CanMove mv = tt

both_finished : Blocked one_each all_out.last
unfolding all_out
both_finished zero lt b p moved mv = Move-CanMove mv
both_finished (suc zero) lt b p moved mv = Move-CanMove mv
both_finished (suc (suc i)) lt b p moved mv = omega arith

blocked_when_done_example : (all_out.last.mem.num_gen ≡ 1) × (all_out.last.mem.num_con ≡ 1)
unfolding all_out
blocked_when_done_example =
    blocked_when_done one_slot-IsCreated all_out.reach both_finished refl (omega arith)
      (omega arith) (omega arith)

work_ends_example : worked all_out.reach ≤ 10 * 1 + 10 * 1 + 1
work_ends_example = work_ends one_slot-IsCreated all_out.reach
