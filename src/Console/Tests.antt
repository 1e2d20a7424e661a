-- ===== src/Console/Tests.antt =====
-- A run of console_template with `-l4 -L log -L other -l`.
use c_playground.Prelude.{◌≡◌, refl, none, some, List, [], ◌∷◌}
use c_playground.Machine.{pos}
use c_playground.Logger.{Log, setup_logger}
use c_playground.Getopt.{Call, Library, continues}
use c_playground.Console.{main}

abbrev library : Library
library = record { strdup = λ t. some t; atoi = λ t. pos 4; fopen = λ t. some 9 }

abbrev calls : List Call
calls =
    record { opt = 108; optarg = some (52 ∷ []) }
    ∷ record { opt = 76; optarg = some (7 ∷ []) }
    ∷ record { opt = 76; optarg = some (8 ∷ []) }
    ∷ record { opt = 108; optarg = none }
    ∷ []

abbrev log : Log
log = record { default_log_stream = none; default_log_level = pos 0; lines = [] }

last_options_win :
    main library calls log
    ≡ continues (record { default_log_stream = some 9; default_log_level = pos 3; lines = [] })
unfolding main setup_logger
last_options_win = refl
