-- ===== src/Serialize/Person.antt =====
-- common/serialization_test.c: the records, their writers and readers, and what `main` does with a
-- list of them.
pub mod Encode
pub mod Decode
pub mod RoundTrip
use c_playground.Prelude.{
  ℕ, ◌+◌, ◌≡◌, Bool, true, false, Option, none, some, List, [], ◌∷◌, length, replicate,
  if◌then◌else◌,
}
use c_playground.Machine.{ℤ, pos, Run, ok, undefined, pattern32, signed32, word_bytes, bytes_word}
use c_playground.Serialize.Buffer.{
  World, Allocator, Cmd, pure, ◌>>=◌, ◌>>◌, create, reset, dump, Table,
}
use c_playground.Serialize.Write.{serialize_data, serialize_null, serialize}
use c_playground.Serialize.Read.{deserialize_data, deserialize_null, deserialize, overwrite}

-- `occupation_t`
pub record Occupation : Type 0 where
  pub dept_name : List ℕ  -- char[30]
  pub employee_code : ℤ

-- `person_t`; `occ` may be NULL.
pub record Person : Type 0 where
  pub name : List ℕ  -- char[30]
  pub age : ℤ
  pub occ : Option Occupation
  pub weight : ℤ

-- `serialize_data(buf, &x, sizeof(int))`
abbrev pub write_int : Allocator → ℤ → Cmd (Unit {0})
write_int heap x = serialize_data heap (word_bytes (pattern32 x)) 4

unfoldable pub serialize_occupation : Allocator → Option Occupation → Cmd (Unit {0})
serialize_occupation heap none = serialize_null heap
serialize_occupation heap (some o) = do
  serialize_data heap o.dept_name 30
  write_int heap o.employee_code

unfoldable pub serialize_person : Allocator → Option Person → Cmd (Unit {0})
serialize_person heap none = serialize_null heap
serialize_person heap (some p) = do
  serialize_data heap p.name 30
  write_int heap p.age
  serialize_occupation heap p.occ
  write_int heap p.weight
  dump

-- `calloc(1, …)`, whose result is used unchecked: a refusal leads to a write through NULL.
unfoldable pub new_object : Allocator → Cmd (Unit {0})
new_object heap w =
    if heap.grants w.calls then ok (tt, record w { calls = w.calls + 1 }) else undefined

-- `deserialize_data(buf, obj->field, 30)` and `deserialize_data(buf, &obj->field, sizeof(int))`
-- into a field that `calloc` has cleared.
unfoldable pub read_text : Cmd (List ℕ)
read_text = do bytes ← deserialize_data 30; pure (overwrite (λ b. b) (replicate 30 0) bytes)

unfoldable pub read_int : Cmd ℤ
read_int = do
  bytes ← deserialize_data 4
  pure (overwrite (λ b. signed32 (bytes_word b)) (pos 0) bytes)

read_occupation : Allocator → Cmd (Option Occupation)
read_occupation heap = do
  new_object heap
  dept_name ← read_text
  employee_code ← read_int
  pure (some (record { dept_name = dept_name; employee_code = employee_code }))

unfoldable pub deserialize_occupation : Allocator → Cmd (Option Occupation)
unfolding read_occupation
deserialize_occupation heap = do
  absent ← deserialize_null heap
  if absent then pure none else read_occupation heap

unfoldable pub deserialize_person : Allocator → Cmd (Option Person)
deserialize_person heap = do
  new_object heap
  name ← read_text
  age ← read_int
  occ ← deserialize_occupation heap
  weight ← read_int
  pure (some (record { name = name; age = age; occ = occ; weight = weight }))

-- The functions that `main` passes to `serialized_buffer_create`.
abbrev pub person_table : Allocator → Table Person
person_table heap = record {
  ser = λ _ v. serialize_person heap v;
  dser = λ _. deserialize_person heap;
}

unfoldable pub serialize_all : Allocator → List (Option Person) → Cmd (Unit {0})
serialize_all heap [] = pure tt
serialize_all heap (p ∷ ps) = do serialize heap (person_table heap) p; serialize_all heap ps

unfoldable pub deserialize_all : Allocator → (n : List (Option Person)) → Cmd (List (Option Person))
deserialize_all heap [] = pure []
deserialize_all heap (_ ∷ ps) = do
  p ← deserialize heap (person_table heap)
  rest ← deserialize_all heap ps
  pure (p ∷ rest)

-- `main` from the first `serialize` to the last `deserialize`, for any list of records: write them
-- all, go back to the start, and read as many.
unfoldable pub write_then_read : Allocator → List (Option Person) → Cmd (List (Option Person))
write_then_read heap people = do serialize_all heap people; reset; deserialize_all heap people
