-- ===== src/Serialize/Tests.antt =====
-- Runs of the buffer at concrete inputs.
use c_playground.Prelude.{
  ℕ, ◌+◌, ◌-◌, ◌≡◌, ◌≢◌, refl, true, false, Option, none, some, List, [], ◌∷◌, arith, length,
  replicate, take, ltb, ◌==◌, if◌then◌else◌,
}
use c_playground.Machine.{pos, negsuc, ok, undefined, out_of_fuel, read_at, bytes_word}
use c_playground.Serialize.Buffer.{World, Handle, SerBuff, Allocator, ◌>>◌, create}
use c_playground.Serialize.Buffer.Layout.{Frame, at}
use c_playground.Serialize.Write.{serialize_data, sentinel}
use c_playground.Serialize.Write.Laws.{Appended, serialize_data-Appended}
use c_playground.Serialize.Write.Refusal.{sized, serialize_data-overrun, serialize_data-halts}
use c_playground.Serialize.Read.{deserialize_null}
use c_playground.Serialize.Read.Laws.{deserialize_null-cases}
use c_playground.Serialize.Stream.{Returns}
use c_playground.Serialize.Person.{Person, write_then_read}
use c_playground.Serialize.Person.Encode.{IsText, ArePeople}
use c_playground.Serialize.Person.RoundTrip.{people_round_trip}

abbrev generous : Allocator
generous = record { grants = λ _. true; garbage = λ _ _. 205 }

abbrev refusing : Allocator
refusing = record { grants = λ _. false; garbage = λ _ _. 205 }

abbrev nothing_yet : World
nothing_yet = record { handle = Handle.null; calls = 0 }

abbrev plain : Frame
plain = record { ser_func = none; dser_func = none }

abbrev four_bytes : List ℕ
four_bytes = 1 ∷ 2 ∷ 3 ∷ 4 ∷ []

abbrev three_bytes : List ℕ
three_bytes = 7 ∷ 8 ∷ 9 ∷ []

serialize_data-Appended_example :
    Appended generous plain 0 four_bytes 2 three_bytes
      (serialize_data generous three_bytes 3 (at plain 0 four_bytes 2))
serialize_data-Appended_example =
    serialize_data-Appended generous plain 0 four_bytes 2 three_bytes (λ _. refl) (omega arith)
      (omega arith) (omega arith) (omega arith)

serialize_data-overrun_example :
    serialize_data refusing three_bytes 3 (at plain 0 four_bytes 2) ≡ undefined
serialize_data-overrun_example =
    serialize_data-overrun refusing plain 0 four_bytes 2 three_bytes refl (omega arith)
      (omega arith) (omega arith) (omega arith)

abbrev odd_buffer : SerBuff
odd_buffer = record {
  memory = four_bytes;
  size = pos 1;
  next = negsuc 0;
  ser_func = none;
  dser_func = none;
}

serialize_data-halts_example :
    serialize_data refusing three_bytes 3 (sized odd_buffer 0) ≢ out_of_fuel
serialize_data-halts_example =
    serialize_data-halts refusing three_bytes 3 odd_buffer 0 1 refl (omega arith)

abbrev null_then : List ℕ
null_then = 255 ∷ 255 ∷ 255 ∷ 255 ∷ 6 ∷ 0 ∷ 0 ∷ 0 ∷ []

deserialize_null-cases_example : deserialize_null generous (at plain 0 null_then 0) ≡ (
    if ltb (length null_then) (4 + 0)
    then ok (false, at plain 0 null_then (0 - 4))
    else if bytes_word (read_at null_then 0 4) == sentinel
    then ok (true, at plain 0 null_then (0 + 4))
    else ok (false, at plain 0 null_then 0))
deserialize_null-cases_example =
    deserialize_null-cases generous plain 0 null_then 0 (omega arith) (omega arith) (omega arith)
      (omega arith)

abbrev text : ℕ → List ℕ
text c = c ∷ replicate 29 0

-- As in `main`: one person with an occupation, a NULL, one without.
abbrev cast : List (Option Person)
cast =
    some (record {
      name = text b'j';
      age = pos 25;
      occ = some (record { dept_name = text b's'; employee_code = pos 2507 });
      weight = pos 80;
    })
    ∷ none
    ∷ some (record { name = text b'p'; age = pos 26; occ = none; weight = pos 55 })
    ∷ []

text-IsText : (c : ℕ) → bytes_word (take 4 (text c)) ≢ sentinel → IsText (text c)
text-IsText c ne = record { full = refl; marked = ne }

cast-ArePeople : ArePeople cast
cast-ArePeople = (
  record {
    name = text-IsText b'j' (omega arith);
    age = refl;
    occ = record { dept_name = text-IsText b's' (omega arith); employee_code = refl };
    weight = refl;
  },
  (record { name = text-IsText b'p' (omega arith); age = refl; occ = tt; weight = refl }, tt),
)

people_round_trip_example :
    Returns
      (λ got _. got ≡ cast)
      ((do create generous (some 0) (some 1); write_then_read generous cast) nothing_yet)
people_round_trip_example =
    people_round_trip generous cast nothing_yet (λ _. refl) cast-ArePeople (omega arith)
