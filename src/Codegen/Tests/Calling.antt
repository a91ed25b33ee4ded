-- ===== src/Codegen/Tests/Calling.antt =====
-- A call with two numbers as its arguments.
use mathlib.Core.List.{map}
use microjit.Prelude.{◌+◌, ◌≡◌, refl, true, [], ◌∷◌, ◌++◌, none, some}
use microjit.Types.{args_size, calculate_args_space, simple_16_bit_align}
use microjit.Types.Sample
use microjit.CallLayout.{moved, move_arguments}
use microjit.Prelude.Dict
use microjit.Raise.{ok}
use microjit.Codegen.Asm.{Code, dword, qword}
use microjit.Codegen.Passable.{IsFound, IsTarget, IsOk}
use microjit.Ir.{immediate, variable, Invocation}
use microjit.Codegen.Calls.{passed_type, aligned_args_space, invoke_function}
use microjit.Codegen.Places.{called, ended, events}
use microjit.Codegen.Passing.{HasTypes, handed_at, IntoNumber}
use microjit.Codegen.Invocation.{invoke_function-moved}
use microjit.Codegen.Tests.{x, y, frame, func}

abbrev ins : Invocation
ins = record {
  target_trampoline = 700;
  target_return_type = Sample.int32;
  return_variable = some x;
  passed_arguments = immediate 7 Sample.int64 ∷ variable y ∷ [];
  arguments_total_size = 12;
  is_jit = true;
}

-- the number of eight bytes above the one of four
addresses : moved Sample.int32 (Sample.int64 ∷ Sample.int32 ∷ []) ≡ 8 ∷ 4 ∷ []
unfolding moved move_arguments calculate_args_space args_size simple_16_bit_align
addresses = refl

invoke_function-moved_example :
    (code : Code) × (invoke_function 500 frame func ins ≡ ok code)
    × (events (4096 + aligned_args_space ins) none code
        ≡ map (λ a. handed_at (4096 + a)) (moved Sample.int32 (Sample.int64 ∷ Sample.int32 ∷ []))
          ++ called 500 4096 ∷ ended (4096 + aligned_args_space ins) ∷ [])
unfolding passed_type args_size HasTypes IntoNumber IsFound IsTarget IsOk Dict.lookup
invoke_function-moved_example =
    invoke_function-moved 4096 500 none frame func ins (Sample.int64 ∷ Sample.int32 ∷ [])
      (refl, (refl, tt)) (tt, (tt, tt)) (refl, (refl, tt)) ((qword, refl), ((dword, refl), tt)) refl
      refl (tt, (dword, refl)) refl
