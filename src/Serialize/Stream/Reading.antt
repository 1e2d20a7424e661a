-- ===== src/Serialize/Stream/Reading.antt =====
-- Reading from the stream: the readers of deserialize.c consume what lies ahead.
use mathlib.Core.List.{append_assoc}
use c_playground.Prelude.{
  ℕ, ◌+◌, ◌≤◌, ◌<◌, ◌≡◌, ◌≢◌, refl, ap, sym, ◌∙◌, true, false, some, List, ◌++◌, arith, length,
  length-append,
}
use c_playground.Machine.{ℤ, signed32, bytes_word, read_at, read_at-append}
use c_playground.Serialize.Buffer.{World, Allocator}
use c_playground.Serialize.Buffer.Layout.{Frame, at}
use c_playground.Serialize.Write.{sentinel}
use c_playground.Serialize.Read.{deserialize_data, deserialize_null, deserialize_int}
use c_playground.Serialize.Read.Laws.{
  deserialize_data-read, deserialize_null-branches, deserialize_int-read,
}
use c_playground.Serialize.Stream.{Returns, returns, IsReader}

-- The reader after `bytes`.
consumed :
    {f : Frame} {w : World} (bytes rest : List ℕ) (v : IsReader f (bytes ++ rest) w)
    → IsReader f rest
        (at f v.calls (v.before ++ ((bytes ++ rest) ++ v.tail)) (length v.before + length bytes))
consumed {f} bytes rest v = record {
  calls = v.calls;
  before = v.before ++ bytes;
  tail = v.tail;
  state =
      ap (λ m. at f v.calls m (length v.before + length bytes)) regroup
      ∙ ap (λ k. at f v.calls ((v.before ++ bytes) ++ (rest ++ v.tail)) k)
          (sym (length-append v.before bytes));
  extent = omega (arith, ap length regroup, v.extent);
}
  where
    regroup : v.before ++ ((bytes ++ rest) ++ v.tail) ≡ (v.before ++ bytes) ++ (rest ++ v.tail)
    regroup = rw (append_assoc bytes rest v.tail, append_assoc v.before bytes (rest ++ v.tail))

fits :
    {f : Frame} {w : World} (bytes rest : List ℕ) (v : IsReader f (bytes ++ rest) w)
    → length v.before + length bytes ≤ length (v.before ++ ((bytes ++ rest) ++ v.tail))
fits bytes rest v = omega (
  arith,
  length-append v.before ((bytes ++ rest) ++ v.tail),
  length-append (bytes ++ rest) v.tail,
  length-append bytes rest,
)

ahead :
    {f : Frame} {w : World} (bytes rest : List ℕ) (v : IsReader f (bytes ++ rest) w)
    → read_at (v.before ++ ((bytes ++ rest) ++ v.tail)) (length v.before) (length bytes) ≡ bytes
ahead bytes rest v =
    rw (append_assoc bytes rest v.tail) (read_at-append v.before bytes (rest ++ v.tail))

-- `deserialize_data` takes the next bytes of the stream.
pub deserialize_data-IsReader :
    {f : Frame} {w : World} (bytes rest : List ℕ)
    → 0 < length bytes
    → IsReader f (bytes ++ rest) w
    → Returns
        (λ got w'. (got ≡ some bytes) × IsReader f rest w')
        (deserialize_data (length bytes) w)
deserialize_data-IsReader {f} bytes rest asked v = rw v.state (
    rw
      (deserialize_data-read f v.calls (v.before ++ ((bytes ++ rest) ++ v.tail)) (length v.before)
        (length bytes) v.extent (fits bytes rest v) asked)
      (returns (ap some (ahead bytes rest v), consumed bytes rest v)))

-- Four bytes ahead that are the sentinel are taken, and reported.
pub deserialize_null-absent :
    (heap : Allocator) {f : Frame} {w : World} (bytes rest : List ℕ)
    → length bytes ≡ 4
    → bytes_word bytes ≡ sentinel
    → IsReader f (bytes ++ rest) w
    → Returns (λ absent w'. (absent ≡ true) × IsReader f rest w') (deserialize_null heap w)
deserialize_null-absent heap {f} bytes rest four same v =
    let room = rw four at (fits bytes rest v) in
    rw v.state (
      rw
        ((deserialize_null-branches heap f v.calls (v.before ++ ((bytes ++ rest) ++ v.tail))
            (length v.before) v.extent (omega (arith, room, v.extent)) (omega (arith, room))
            (omega (arith, room))).0
          room (ap bytes_word (rw four at (ahead bytes rest v)) ∙ same))
        (returns (refl, rw four at (consumed bytes rest v))))

-- Any other four bytes ahead stay there.
pub deserialize_null-present :
    (heap : Allocator) {f : Frame} {w : World} (bytes rest : List ℕ)
    → length bytes ≡ 4
    → bytes_word bytes ≢ sentinel
    → IsReader f (bytes ++ rest) w
    → Returns
        (λ absent w'. (absent ≡ false) × IsReader f (bytes ++ rest) w')
        (deserialize_null heap w)
deserialize_null-present heap {f} bytes rest four other v =
    let room = rw four at (fits bytes rest v) in
    rw v.state (
      rw
        ((deserialize_null-branches heap f v.calls (v.before ++ ((bytes ++ rest) ++ v.tail))
            (length v.before) v.extent (omega (arith, room, v.extent)) (omega (arith, room))
            (omega (arith, room))).1
          room (λ e. other (sym (ap bytes_word (rw four at (ahead bytes rest v))) ∙ e)))
        (returns (refl, rw v.state at v)))

-- `deserialize_int` takes a whole word.
pub deserialize_int-IsReader :
    {f : Frame} {w : World} (x : ℤ) (bytes rest : List ℕ)
    → length bytes ≡ 4
    → signed32 (bytes_word bytes) ≡ x
    → IsReader f (bytes ++ rest) w
    → Returns (λ got w'. (got ≡ x) × IsReader f rest w') (deserialize_int w)
deserialize_int-IsReader {f} x bytes rest four same v =
    let room = rw four at (fits bytes rest v) in
    rw v.state (
      rw
        (deserialize_int-read f v.calls (v.before ++ ((bytes ++ rest) ++ v.tail)) (length v.before)
          v.extent room)
        (returns (
          ap (λ b. signed32 (bytes_word b)) (rw four at (ahead bytes rest v)) ∙ same,
          rw four at (consumed bytes rest v),
        )))
