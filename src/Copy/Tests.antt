-- ===== src/Copy/Tests.antt =====
-- A file of 130 bytes is copied, to a new file and to one that is there already.
use mathlib.Core.List.{append-nil}
use Prim.Native.Nat.{min}
use c_playground.Prelude.{
  ℕ, zero, suc, ◌≡◌, refl, sym, ap, take-all, Bool, true, false, List, [], ◌∷◌, ◌++◌, length, take,
  drop, arith, if◌then◌else◌,
}
use c_playground.Machine.{ℤ, pos, negsuc}
use c_playground.Getopt.{Text}
use c_playground.Copy.{System, exit_success, main}
use c_playground.Copy.Laws.{IsRegular, main_copies}

record Files : Type 0 where
  left : List ℕ
  content : List ℕ

abbrev write_to : ℤ → List ℕ → Files → ℤ × Files
write_to (pos fd) bytes s = (pos (length bytes), record s { content = s.content ++ bytes })
write_to (negsuc n) bytes s = (negsuc 0, s)

-- The target can be opened where `fresh` says so.
abbrev files : (fresh : Bool) → System
files fresh = record {
  State = Files;
  open_source = λ name s. (pos 3, s);
  open_target = λ name s. (if fresh then pos 4 else negsuc 0, s);
  read = λ fd n s. (pos (min n (length s.left)), take n s.left, record s { left = drop n s.left });
  write = write_to;
  close = λ fd s. s;
}

files-IsRegular : IsRegular (files true) (pos 3) (pos 4)
files-IsRegular = record {
  left = λ s. s.left;
  content = λ s. s.content;
  read_all = λ n s. refl;
  read_bytes = λ n s. refl;
  read_left = λ n s. refl;
  read_content = λ n s. refl;
  write_content =
      λ bytes s. sym (ap (λ b. s.content ++ b) (take-all (length bytes) bytes (omega arith)));
  write_left = λ bytes s. refl;
  close_content = λ fd s. refl;
}

there-IsRegular : IsRegular (files false) (pos 3) (negsuc 0)
there-IsRegular = record {
  left = λ s. s.left;
  content = λ s. s.content;
  read_all = λ n s. refl;
  read_bytes = λ n s. refl;
  read_left = λ n s. refl;
  read_content = λ n s. refl;
  write_content = λ bytes s. sym (append-nil s.content);
  write_left = λ bytes s. refl;
  close_content = λ fd s. refl;
}

zeros : ℕ → List ℕ
zeros zero = []
zeros (suc n) = 0 ∷ zeros n

abbrev before : Files
before = record { left = zeros 130; content = [] }

abbrev argv : List Text
argv = [] ∷ [] ∷ [] ∷ []

main_copies_example :
    (last : Files) × (main (files true) 2 argv before ≡ exit_success last)
    × (last.content ≡ zeros 130)
unfolding files-IsRegular zeros
main_copies_example =
    main_copies (files true) 2 [] [] [] before before before 3 (pos 4) true files-IsRegular
      (λ bytes s. refl) refl refl (omega arith)

-- The target is there: the same end, and nothing is written.
nothing_written :
    (last : Files) × (main (files false) 2 argv before ≡ exit_success last) × (last.content ≡ [])
unfolding there-IsRegular zeros
nothing_written =
    main_copies (files false) 2 [] [] [] before before before 3 (negsuc 0) false there-IsRegular
      (λ bytes s. refl) refl refl (omega arith)
