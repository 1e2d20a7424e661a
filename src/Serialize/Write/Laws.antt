-- ===== src/Serialize/Write/Laws.antt =====
-- What the writers of serialize.c leave in the buffer.
use native.Mathlib.Nat.{pow-suc}
use mathlib.Core.List.{append-nil, append_assoc}
use c_playground.Prelude.{
  ℕ, zero, suc, ◌+◌, ◌-◌, ◌*◌, ◌^◌, ◌≤◌, ◌<◌, ◌≡◌, refl, ap, ◌∙◌, Bool, true, false, List, [], ◌++◌,
  arith, length, take-all, if◌then◌else◌, dec_lt, lt→ltb,
}
use c_playground.Machine.{Run, ok, fresh, write_at, length-write_at}
use c_playground.Serialize.Buffer.{
  Allocator, World, ◌>>=◌, ◌>>◌, resize, copy_in, ser_pos_incr, buffer_size, buffer_next,
  grow_rounds,
}
use c_playground.Serialize.Buffer.Layout.{
  Frame, at, bind-ok, then-ok, IsGenerous, doubled, length-doubled, resize-doubled,
}
use c_playground.Serialize.Write.{available, grow, store, write_data, serialize_data}

pub available-at :
    (f : Frame) (calls : ℕ) (memory : List ℕ) (k : ℕ)
    → k ≤ length memory
    → length memory < 2 ^ 31
    → available (at f calls memory k) ≡ ok (length memory - k, at f calls memory k)
unfolding available buffer_size buffer_next
available-at f calls memory k inside small = ground arith

-- The block that the loop ends with: the old one and new cells behind it.
record Grown (heap : Allocator) (f : Frame) (calls : ℕ) (memory : List ℕ) (k n fuel : ℕ)
    (flag : Bool) : Type 0 where
  extra : List ℕ
  calls' : ℕ
  flag' : Bool
  run :
      grow heap fuel n (length memory - k) flag (at f calls memory k)
      ≡ ok (flag', at f calls' (memory ++ extra) k)
  room : k + n ≤ length (memory ++ extra)
  extent : length (memory ++ extra) < 2 ^ 31
  exact : k + n ≤ length memory → extra ≡ []

module _ (heap : Allocator) (f : Frame) (k n : ℕ) where
  grow-stops :
      (memory : List ℕ) (fuel calls : ℕ) (flag : Bool)
      → length memory < 2 ^ 31
      → k ≤ length memory
      → k + n ≤ length memory
      → Grown heap f calls memory k n (suc fuel) flag
  unfolding grow
  grow-stops memory fuel calls flag small inside fits = record {
    extra = [];
    calls' = calls;
    flag' = flag;
    run = rw append-nil (ground arith);
    room = rw append-nil fits;
    extent = rw append-nil small;
    exact = λ _. refl;
  }

  pub grow-done :
      (fuel room : ℕ) (flag : Bool) (w : World)
      → n ≤ room
      → grow heap (suc fuel) n room flag w ≡ ok (flag, w)
  unfolding grow
  grow-done fuel room flag w enough = ground arith

  pub grow-step :
      (fuel room : ℕ) (flag : Bool) (w : World)
      → room < n
      → grow heap (suc fuel) n room flag w
        ≡ (do resize heap 2; again ← available; grow heap fuel n again true) w
  unfolding grow
  grow-step fuel room flag w short = rw (lt→ltb room n short)

  grow-again :
      (memory : List ℕ) (fuel calls : ℕ) (flag : Bool)
      → heap.grants calls ≡ true
      → 0 < length memory
      → length memory < 2 ^ 30
      → k ≤ length memory
      → length memory < k + n
      → Grown heap f (calls + 1) (doubled heap calls memory) k n (suc fuel) true
      → Grown heap f calls memory k n (suc (suc fuel)) flag
  grow-again memory fuel calls flag granted some_room small inside more g = record {
    extra = fresh (heap.garbage calls) (length memory) (length memory) ++ g.extra;
    calls' = g.calls';
    flag' = g.flag';
    run =
        grow-step (suc fuel) (length memory - k) flag (at f calls memory k) (omega arith)
        ∙ then-ok (resize heap 2) _ (resize-doubled heap f calls memory k granted some_room small) (
            bind-ok available _
              (available-at f (calls + 1) (doubled heap calls memory) k (omega (arith, len))
                (omega (arith, len)))
              (g.run ∙ ap (λ m. ok (g.flag', at f g.calls' m k)) regroup));
    room = rw (← regroup) g.room;
    extent = rw (← regroup) g.extent;
    exact = λ h. absurd (omega arith);
  }
    where
      len : length (doubled heap calls memory) ≡ length memory * 2
      len = length-doubled heap calls memory

      regroup :
          doubled heap calls memory ++ g.extra
          ≡ memory ++ (fresh (heap.garbage calls) (length memory) (length memory) ++ g.extra)
      regroup = append_assoc memory _ g.extra

  grow-Grown :
      (memory : List ℕ) (fuel calls : ℕ) (flag : Bool)
      → IsGenerous heap
      → 0 < length memory
      → length memory < 2 ^ 31
      → k ≤ length memory
      → k + n < 2 ^ 30
      → k + n ≤ length memory * 2 ^ fuel
      → Grown heap f calls memory k n (suc fuel) flag
  grow-Grown memory zero calls flag gen some_room small inside need rounds =
      grow-stops memory zero calls flag small inside (omega arith)
  grow-Grown memory (suc fuel) calls flag gen some_room small inside need rounds =
      elim (dec_lt (length memory) (k + n)) [
        | no fits ↦ grow-stops memory (suc fuel) calls flag small inside (omega arith)
        | yes more ↦
            let len = length-doubled heap calls memory in
            grow-again memory fuel calls flag (gen calls) some_room (omega arith) inside more (
              grow-Grown (doubled heap calls memory) fuel (calls + 1) true gen (omega (arith, len))
                (omega (arith, len)) (omega (arith, len)) need
                (omega (
                  arith,
                  ap (λ (x : ℕ). x * 2 ^ fuel) len,
                  pow-suc 2 fuel,
                  ap (λ (x : ℕ). length memory * x) (pow-suc 2 fuel),
                )))
      ]

  store-at :
      (memory : List ℕ) (bytes : List ℕ) (calls : ℕ)
      → length bytes ≡ n
      → k + n ≤ length memory
      → length memory < 2 ^ 31
      → store bytes n (at f calls memory k) ≡ ok (tt, at f calls (write_at memory k bytes) (k + n))
  unfolding store copy_in ser_pos_incr
  store-at memory bytes calls len room small =
      ground (arith, take-all n bytes (omega arith), length-write_at memory k bytes (omega arith))

-- What a write leaves: the block, grown by `extra` if it was too small, with the bytes at the old
-- position and the position behind them.
pub record Appended (heap : Allocator) (f : Frame) (calls : ℕ) (memory : List ℕ) (k : ℕ)
    (bytes : List ℕ) (after : Run (Unit {0} × World)) : Type 0 where
  pub extra : List ℕ
  pub calls' : ℕ
  pub run : after ≡ ok (tt, at f calls' (write_at (memory ++ extra) k bytes) (k + length bytes))
  pub room : k + length bytes ≤ length (memory ++ extra)
  pub extent : length (memory ++ extra) < 2 ^ 31
  pub exact : k + length bytes ≤ length memory → extra ≡ []

-- With memory to be had and less than 2 ^ 30 bytes in all, `serialize_data` puts its bytes at the
-- position and moves behind them; the block grows, by new cells at its end, only if they do not
-- fit, and the loop of the growth ends.
pub serialize_data-Appended :
    (heap : Allocator) (f : Frame) (calls : ℕ) (memory : List ℕ) (k : ℕ) (bytes : List ℕ)
    → IsGenerous heap
    → 0 < length memory
    → length memory < 2 ^ 31
    → k ≤ length memory
    → k + length bytes < 2 ^ 30
    → Appended heap f calls memory k bytes
        (serialize_data heap bytes (length bytes) (at f calls memory k))
unfolding serialize_data write_data
serialize_data-Appended heap f calls memory k bytes gen some_room small inside need = record {
  extra = g.extra;
  calls' = g.calls';
  run = bind-ok available _ (available-at f calls memory k inside small) (
      bind-ok (grow heap grow_rounds (length bytes) (length memory - k) false) _ g.run (
        both g.flag' _ (
          store-at heap f k (length bytes) (memory ++ g.extra) bytes g.calls' refl g.room
            g.extent)));
  room = g.room;
  extent = g.extent;
  exact = g.exact;
}
  where
    g : Grown heap f calls memory k (length bytes) grow_rounds false
    g =
        grow-Grown heap f k (length bytes) memory 63 calls false gen some_room small inside need
          (omega arith)

    both :
        (flag : Bool) (w : World) {r : Run (Unit {0} × World)}
        → store bytes (length bytes) w ≡ r
        → (if flag then store bytes (length bytes) else store bytes (length bytes)) w ≡ r
    both true w e = e
    both false w e = e
