-- ===== src/IntBuffer/Tests.antt =====
-- copy_data_to_pointer_position.c on a block of zeros.
use c_playground.Prelude.{◌≡◌, refl, true, none, some, replicate}
use c_playground.IntBuffer.{copy_int, ran, run_main}
use c_playground.IntBuffer.Laws.{ints, int_bytes, run_main-copies}

run_main-copies_example :
    run_main true (some (replicate 40 0))
    ≡ ran (
        some (record {
          buf = record { cells = int_bytes (ints 10 0); ptr = 40; capacity = 40; size = 0 };
          printed = ints 10 0;
        }))
run_main-copies_example = run_main-copies (replicate 40 0) refl

-- In a smaller block the first round writes outside.
too_small : copy_int 7 (record { cells = replicate 3 0; ptr = 0; capacity = 3; size = 0 }) ≡ none
unfolding copy_int
too_small = refl
