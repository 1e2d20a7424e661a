-- ===== src/Rpc/Tests.antt =====
-- The client's marshalling at its own arguments.
use c_playground.Prelude.{◌≡◌, refl, true, none, some, ◌++◌, replicate}
use c_playground.Machine.{pos, ok, undefined}
use c_playground.Serialize.Buffer.{SerBuff, World, Handle, live, freed, Allocator}
use c_playground.Rpc.Laws.{arguments, connected, multiply_rpc-sends}
use c_playground.Rpc.{multiply_rpc, main}

abbrev generous : Allocator
generous = record { grants = λ _. true; garbage = λ _ _. 205 }

abbrev null_world : World
null_world = record { handle = Handle.null; calls = 0 }

multiply_rpc-sends_example :
    (recv : SerBuff) × (w' : World) × (multiply_rpc generous
        (connected (pos 512))
        (pos 3)
        (pos 5)
        null_world
      ≡ ok (
        record {
          value = none;
          sent = some (arguments (pos 3) (pos 5) ++ replicate 504 0);
          recv = live recv;
        },
        w',
      ))
    × (w'.handle ≡ freed)
    × (main generous (connected (pos 512)) null_world ≡ undefined)
multiply_rpc-sends_example =
    multiply_rpc-sends generous (pos 512) (pos 3) (pos 5) null_world (λ _. refl)
