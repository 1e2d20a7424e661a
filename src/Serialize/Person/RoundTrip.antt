-- ===== src/Serialize/Person/RoundTrip.antt =====
-- What `main` of serialization_test.c reads is what it wrote.
use c_playground.Prelude.{◌*◌, ◌^◌, ◌<◌, ◌≡◌, refl, Option, some, List, arith, length}
use c_playground.Serialize.Buffer.{World, Allocator, ◌>>◌, create}
use c_playground.Serialize.Buffer.Layout.{IsGenerous}
use c_playground.Serialize.Stream.{Returns, bind, reset-IsReader, create-IsWriter}
use c_playground.Serialize.Person.{Person, write_then_read}
use c_playground.Serialize.Person.Encode.{ArePeople, serialize_all-IsWriter}
use c_playground.Serialize.Person.Decode.{deserialize_all-IsReader}

-- `main` of serialization_test.c for any list of persons and NULLs of less than 2 ^ 30 bytes: a new
-- buffer, all records written, the position reset, as many read. With memory to be had, and no text
-- that starts with four 0xff bytes, the run is defined and reads back the very records.
pub people_round_trip :
    (heap : Allocator) (people : List (Option Person)) (w : World)
    → IsGenerous heap
    → ArePeople people
    → 72 * length people < 2 ^ 30
    → Returns
        (λ got _. got ≡ people)
        ((do create heap (some 0) (some 1); write_then_read heap people) w)
unfolding write_then_read
people_round_trip heap people w gen is small =
    bind (create-IsWriter heap (some 0) (some 1) w gen) λ _ w1 v1.
      bind (serialize_all-IsWriter heap gen 0 people refl is v1 (omega arith)) λ _ w2 v2.
        bind (reset-IsReader v2) λ _ w3 v3. deserialize_all-IsReader heap gen 1 people refl is v3
