-- ===== src/CallLayout/Tests.antt =====
-- The arguments of one call, and the theorems about them.
use microjit.Prelude.{ℕ, ◌+◌, ◌-◌, ◌≡◌, refl, List, [], ◌∷◌, some, none, ◌<◌, get_elem?, arith}
use microjit.Prelude.Dict
use microjit.Types.{CxxType, simple_16_bit_align, args_size, calculate_args_space}
use microjit.Types.Sample
use microjit.CallLayout.{
  moved, move_arguments, destructed, destruct_arguments, args_map, args_map_loop, native_args_clang,
  pass_args_clang, native_args_gcc, pass_args_gcc, create_indexes, create_indexes_loop, size_at,
}
use microjit.CallLayout.Agreement.{args_map-moved, native_args-moved}
use microjit.CallLayout.Disjoint.{IsStacked, moved-IsStacked, destructed-lt-moved}
use microjit.CallLayout.Indexes.{moved-create_indexes}

-- the arguments of a function `int64 f(int32, double, bool)`
abbrev types : List CxxType
types = Sample.int32 ∷ Sample.double ∷ Sample.bool ∷ []

moved_run : moved Sample.int64 types ≡ 28 ∷ 20 ∷ 19 ∷ []
unfolding moved move_arguments calculate_args_space simple_16_bit_align args_size
moved_run = refl

clang_run : native_args_clang Sample.int64 types ≡ 28 ∷ 20 ∷ 19 ∷ []
unfolding native_args_clang pass_args_clang calculate_args_space simple_16_bit_align args_size
clang_run = refl

gcc_run : native_args_gcc Sample.int64 types ≡ 28 ∷ 20 ∷ 19 ∷ []
unfolding native_args_gcc pass_args_gcc calculate_args_space simple_16_bit_align args_size
gcc_run = refl

args_map_run : args_map Sample.int64 types ≡ (0, 28) ∷ (1, 20) ∷ (2, 19) ∷ []
unfolding args_map args_map_loop simple_16_bit_align args_size Dict.insert
args_map_run = refl

indexes_run : create_indexes types ≡ 9 ∷ 1 ∷ 0 ∷ []
unfolding create_indexes create_indexes_loop size_at
indexes_run = refl

-- the arguments of a function `int64 f(Object, int32)`, the first with a destructor
abbrev with_object : List CxxType
with_object = Sample.object ∷ Sample.int32 ∷ []

destructed_run : destructed Sample.int64 with_object ≡ some 8 ∷ none ∷ []
unfolding destructed destruct_arguments
destructed_run = refl

args_map-moved_example :
    Dict.lookup 1 (args_map Sample.int64 types) ≡ get_elem? (moved Sample.int64 types) 1
args_map-moved_example = args_map-moved Sample.int64 types 1

native_args-moved_example :
    (native_args_clang Sample.int64 types ≡ moved Sample.int64 types)
    × (native_args_gcc Sample.int64 types ≡ moved Sample.int64 types)
native_args-moved_example = native_args-moved Sample.int64 types

moved-IsStacked_example :
    IsStacked 8 (calculate_args_space Sample.int64 types) types (moved Sample.int64 types)
moved-IsStacked_example = moved-IsStacked Sample.int64 types

destructed-lt-moved_example :
    (written : ℕ) × (get_elem? (moved Sample.int64 with_object) 0 ≡ some written)
    × (get_elem? (destructed Sample.int64 with_object) 0 ≡ some (some 8))
    × (8 < written)
unfolding args_size
destructed-lt-moved_example =
    destructed-lt-moved Sample.int64 Sample.object (Sample.int32 ∷ [])
      (λ e. absurd (omega (arith, e))) (omega arith)

moved-create_indexes_example :
    (offset : ℕ) × (get_elem? (create_indexes types) 0 ≡ some offset)
    × (get_elem? (moved Sample.int64 types) 0
        ≡ some (offset + 8 + (calculate_args_space Sample.int64 types - (8 + args_size types))))
moved-create_indexes_example = moved-create_indexes Sample.int64 types 0 (omega arith)
