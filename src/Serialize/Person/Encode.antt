-- ===== src/Serialize/Person/Encode.antt =====
-- The bytes of a record, and that the writers of serialization_test.c append exactly these.
use mathlib.Core.List.{append-nil, append_assoc}
use c_playground.Prelude.{
  ℕ, ◌+◌, ◌*◌, ◌^◌, ◌≤◌, ◌<◌, ◌≡◌, ◌≢◌, refl, true, Option, none, some, List, [], ◌∷◌, ◌++◌, arith,
  length, take, length-append, subst,
}
use c_playground.Machine.{ℤ, fits_int, pattern32, word_bytes, bytes_word}
use c_playground.Serialize.Buffer.{World, Allocator, dump, Table, do_serialize}
use c_playground.Serialize.Buffer.Layout.{Frame, IsGenerous}
use c_playground.Serialize.Write.{serialize_data, serialize_null, serialize, sentinel}
use c_playground.Serialize.Stream.{Returns, returns, bind, IsWriter, serialize_data-IsWriter}
use c_playground.Serialize.Person.{
  Occupation, Person, write_int, serialize_occupation, serialize_person, serialize_all,
  person_table,
}

abbrev pub int_bytes : ℤ → List ℕ
int_bytes x = word_bytes (pattern32 x)

abbrev pub null_bytes : List ℕ
null_bytes = word_bytes sentinel

unfoldable pub occupation_bytes : Option Occupation → List ℕ
occupation_bytes none = null_bytes
occupation_bytes (some o) = o.dept_name ++ int_bytes o.employee_code

unfoldable pub person_bytes : Option Person → List ℕ
person_bytes none = null_bytes
person_bytes (some p) =
    p.name ++ (int_bytes p.age ++ (occupation_bytes p.occ ++ int_bytes p.weight))

unfoldable pub all_bytes : List (Option Person) → List ℕ
all_bytes [] = []
all_bytes (p ∷ ps) = person_bytes p ++ all_bytes ps

-- A text that fills its field and does not start like the sentinel, and integers in range.
pub record IsText (s : List ℕ) : Type 0 where
  pub full : length s ≡ 30
  pub marked : bytes_word (take 4 s) ≢ sentinel

pub record IsOccupation (o : Occupation) : Type 0 where
  pub dept_name : IsText o.dept_name
  pub employee_code : fits_int o.employee_code ≡ true

abbrev pub IsOccupation? : Option Occupation → Type 0
IsOccupation? none = Unit
IsOccupation? (some o) = IsOccupation o

pub record IsPerson (p : Person) : Type 0 where
  pub name : IsText p.name
  pub age : fits_int p.age ≡ true
  pub occ : IsOccupation? p.occ
  pub weight : fits_int p.weight ≡ true

abbrev pub ArePeople : List (Option Person) → Type 0
ArePeople [] = Unit
ArePeople (none ∷ ps) = ArePeople ps
ArePeople (some p ∷ ps) = IsPerson p × ArePeople ps

occupation_size : (o : Option Occupation) → IsOccupation? o → length (occupation_bytes o) ≤ 34
unfolding occupation_bytes
occupation_size none is = omega arith
occupation_size (some o) is =
    omega (arith, length-append o.dept_name (int_bytes o.employee_code), is.dept_name.full)

pub one_person :
    (p : Option Person) (ps : List (Option Person)) → ArePeople (p ∷ ps) → ArePeople (p ∷ [])
one_person none ps is = tt
one_person (some p) ps is = (is.0, tt)

pub other_people :
    (p : Option Person) (ps : List (Option Person)) → ArePeople (p ∷ ps) → ArePeople ps
other_people none ps is = is
other_people (some p) ps is = is.1

person_size : (p : Option Person) → ArePeople (p ∷ []) → length (person_bytes p) ≤ 72
unfolding person_bytes
person_size none is = omega arith
person_size (some p) is = omega (
  arith,
  length-append p.name (int_bytes p.age ++ (occupation_bytes p.occ ++ int_bytes p.weight)),
  length-append (occupation_bytes p.occ) (int_bytes p.weight),
  is.0.name.full,
  occupation_size p.occ is.0.occ,
)

dump-IsWriter :
    {f : Frame} {s : List ℕ} {w : World}
    → IsWriter f s w
    → Returns (λ _ w'. IsWriter f s w') (dump w)
unfolding dump
dump-IsWriter v = rw v.state (returns (rw v.state at v))

-- `serialize` of a record calls the function that the buffer was created with.
serialize-calls :
    {V : Type 0} (heap : Allocator) (table : Table V) (i : ℕ) (x : V) {f : Frame} {s : List ℕ}
    {w : World}
    → f.ser_func ≡ some i
    → IsWriter f s w
    → serialize heap table (some x) w ≡ table.ser i (some x) w
unfolding serialize do_serialize
serialize-calls heap table i x fe v = rw v.state (rw fe refl)

module _ (heap : Allocator) (gen : IsGenerous heap) {f : Frame} where
  append :
      {s : List ℕ} {w : World} (bytes : List ℕ) (n : ℕ)
      → length bytes ≡ n
      → IsWriter f s w
      → length s + n < 2 ^ 30
      → Returns (λ _ w'. IsWriter f (s ++ bytes) w') (serialize_data heap bytes n w)
  append {s} {w} bytes n len v need =
      subst (λ k. Returns (λ _ w'. IsWriter f (s ++ bytes) w') (serialize_data heap bytes k w)) len
        (serialize_data-IsWriter heap bytes gen v (omega (arith, len)))

  serialize_occupation-IsWriter :
      {s : List ℕ} {w : World} (o : Option Occupation)
      → IsOccupation? o
      → IsWriter f s w
      → length s + 34 < 2 ^ 30
      → Returns (λ _ w'. IsWriter f (s ++ occupation_bytes o) w') (serialize_occupation heap o w)
  unfolding serialize_occupation occupation_bytes serialize_null
  serialize_occupation-IsWriter none is v need = append null_bytes 4 refl v (omega arith)
  serialize_occupation-IsWriter {s} (some o) is v need =
      bind (append o.dept_name 30 is.dept_name.full v (omega arith)) λ _ w' v'.
        subst (λ t. Returns (λ _ w2. IsWriter f t w2) (write_int heap o.employee_code w'))
          (append_assoc s o.dept_name _)
          (append (int_bytes o.employee_code) 4 refl v'
            (omega (arith, length-append s o.dept_name, is.dept_name.full)))

  serialize_person-IsWriter :
      {s : List ℕ} {w : World} (p : Person)
      → IsPerson p
      → IsWriter f s w
      → length s + 72 < 2 ^ 30
      → Returns
          (λ _ w'. IsWriter f (s ++ person_bytes (some p)) w')
          (serialize_person heap (some p) w)
  unfolding serialize_person person_bytes dump
  serialize_person-IsWriter {s} p is v need =
      bind (append p.name 30 is.name.full v (omega arith)) λ _ w1 v1.
        bind (append (int_bytes p.age) 4 refl v1 (omega (arith, l1))) λ _ w2 v2.
          bind (serialize_occupation-IsWriter p.occ is.occ v2 (omega (arith, l1, l2))) λ _ w3 v3.
            bind
              (append (int_bytes p.weight) 4 refl v3
                (omega (arith, l1, l2, l3, occupation_size p.occ is.occ)))
              λ _ w4 v4. dump-IsWriter (subst (λ t. IsWriter f t w4) regroup v4)
    where
      l1 : length (s ++ p.name) ≡ length s + 30
      l1 = omega (arith, length-append s p.name, is.name.full)

      l2 : length ((s ++ p.name) ++ int_bytes p.age) ≡ length (s ++ p.name) + 4
      l2 = length-append (s ++ p.name) (int_bytes p.age)

      l3 :
          length (((s ++ p.name) ++ int_bytes p.age) ++ occupation_bytes p.occ)
          ≡ length ((s ++ p.name) ++ int_bytes p.age) + length (occupation_bytes p.occ)
      l3 = length-append ((s ++ p.name) ++ int_bytes p.age) (occupation_bytes p.occ)

      regroup :
          ((((s ++ p.name) ++ int_bytes p.age) ++ occupation_bytes p.occ) ++ int_bytes p.weight)
          ≡ s ++ (p.name ++ (int_bytes p.age ++ (occupation_bytes p.occ ++ int_bytes p.weight)))
      regroup = rw (
        append_assoc s p.name (int_bytes p.age),
        append_assoc s (p.name ++ int_bytes p.age) (occupation_bytes p.occ),
        append_assoc s ((p.name ++ int_bytes p.age) ++ occupation_bytes p.occ) (int_bytes p.weight),
        append_assoc p.name (int_bytes p.age) (occupation_bytes p.occ),
        append_assoc p.name (int_bytes p.age ++ occupation_bytes p.occ) (int_bytes p.weight),
      )

  serialize-IsWriter :
      {s : List ℕ} {w : World} (i : ℕ) (p : Option Person)
      → f.ser_func ≡ some i
      → ArePeople (p ∷ [])
      → IsWriter f s w
      → length s + 72 < 2 ^ 30
      → Returns
          (λ _ w'. IsWriter f (s ++ person_bytes p) w')
          (serialize heap (person_table heap) p w)
  unfolding serialize person_bytes
  serialize-IsWriter i none fe is v need = append null_bytes 4 refl v (omega arith)
  serialize-IsWriter i (some p) fe is v need =
      rw (serialize-calls heap (person_table heap) i p fe v)
        (serialize_person-IsWriter p is.0 v need)

  pub serialize_all-IsWriter :
      (i : ℕ) (people : List (Option Person)) {s : List ℕ} {w : World}
      → f.ser_func ≡ some i
      → ArePeople people
      → IsWriter f s w
      → length s + 72 * length people < 2 ^ 30
      → Returns (λ _ w'. IsWriter f (s ++ all_bytes people) w') (serialize_all heap people w)
  unfolding serialize_all all_bytes
  serialize_all-IsWriter i [] fe is v need = returns (rw append-nil v)
  serialize_all-IsWriter i (p ∷ ps) {s} fe is v need =
      bind (serialize-IsWriter i p fe (one_person p ps is) v (omega arith)) λ _ w' v'.
        subst (λ t. Returns (λ _ w2. IsWriter f t w2) (serialize_all heap ps w'))
          (append_assoc s (person_bytes p) (all_bytes ps))
          (serialize_all-IsWriter i ps fe (other_people p ps is) v'
            (omega (arith, length-append s (person_bytes p), person_size p (one_person p ps is))))
