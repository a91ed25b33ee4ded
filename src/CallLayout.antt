-- ===== src/CallLayout.antt =====
-- How the arguments of a call lie in the block of memory that caller and callee share: five pieces
-- of code compute these addresses independently. src/microjit/orchestrator.h writes the arguments
-- (`InstanceTrampoline::move_argument`) and destroys them (`destruct_argument`);
-- src/microjit/jit.cpp reads them (`args_map` of `create_frame_report`); src/microjit/trampoline.h
-- reads them for native functions (`pass_arg`, in two versions); src/microjit/instructions.h keeps a
-- table of its own (`ArgumentsDeclaration::create_indexes`). An address is an offset from the
-- start of the block, `args_space`.
pub mod Agreement
pub mod Disjoint
pub mod Indexes
mod Tests
use microjit.Prelude.{
  ℕ, zero, suc, ◌+◌, ◌-◌, List, [], ◌∷◌, Option, none, some, ◌==◌, if◌then◌else◌, length, get_elem?,
  Bool, set, replicate,
}
use microjit.Prelude.Dict
use microjit.Types.{CxxType, empty_dtor, args_size, simple_16_bit_align, calculate_args_space}
use mathlib.Core.List.{reverse}

-- The fold over `move_argument` in `call_internal`: the pointer falls by `sizeof(T)`, and the
-- argument is written there.
unfoldable pub move_arguments : ℕ → List CxxType → List ℕ
move_arguments space_ptr [] = []
move_arguments space_ptr (t ∷ ts) =
    let new_addr = space_ptr - t.size in new_addr ∷ move_arguments new_addr ts

-- where `call_internal` writes each argument
unfoldable pub moved : CxxType → List CxxType → List ℕ
moved ret ts = move_arguments (calculate_args_space ret ts) ts

-- `std::is_trivially_destructible_v<T>`, which `Type::create` keeps as the destructor that does nothing
abbrev pub trivially_destructible : CxxType → Bool
trivially_destructible t = t.destructor == empty_dtor

-- The fold over `destruct_argument` in `call_internal`: the pointer climbs by `sizeof(T)`. For each
-- argument, where its destructor runs, if it has one that does something.
unfoldable pub destruct_arguments : ℕ → List CxxType → List (Option ℕ)
destruct_arguments space_ptr [] = []
destruct_arguments space_ptr (t ∷ ts) =
    (if trivially_destructible t then none else some space_ptr)
    ∷ destruct_arguments (space_ptr + t.size) ts

-- where `call_internal` destroys each argument, `destruct_return` having passed the result
unfoldable pub destructed : CxxType → List CxxType → List (Option ℕ)
destructed ret ts = destruct_arguments ret.size ts

-- the loop that fills `args_map`, from argument `i` on
unfoldable pub args_map_loop : ℕ → ℕ → List CxxType → List (ℕ × ℕ) → List (ℕ × ℕ)
args_map_loop i args_combined_size [] m = m
args_map_loop i args_combined_size (arg ∷ args) m =
    let left = args_combined_size - arg.size in
    args_map_loop (suc i) left args (Dict.insert i left m)

-- `args_map` of `create_frame_report`
unfoldable pub args_map : CxxType → List CxxType → List (ℕ × ℕ)
args_map ret args = args_map_loop 0 (simple_16_bit_align (ret.size + args_size args)) args []

-- `pass_arg` under clang, from left to right: the pointer falls, and goes back to the floor after
-- the last argument.
unfoldable pub pass_args_clang : (arg_count floor : ℕ) → (vrsp argc : ℕ) → List CxxType → List ℕ
pass_args_clang arg_count floor vrsp argc [] = []
pass_args_clang arg_count floor vrsp argc (t ∷ ts) =
    let new_offset = vrsp - t.size in
    let last = argc == (arg_count - 1) in
    new_offset
    ∷ pass_args_clang arg_count floor (if last then floor else new_offset)
        (if last then argc else argc + 1) ts

-- `call_internal` of `NativeFunctionTrampoline` under clang: the addresses read, argument by argument
unfoldable pub native_args_clang : CxxType → List CxxType → List ℕ
native_args_clang ret ts = pass_args_clang (length ts) 0 (calculate_args_space ret ts) 0 ts

-- `pass_arg` under other compilers, which evaluate the arguments from right to left: the pointer
-- climbs over the arguments in that order. The result is in the order of evaluation.
unfoldable pub pass_args_gcc : (arg_count floor : ℕ) → (vrsp argc : ℕ) → List CxxType → List ℕ
pass_args_gcc arg_count floor vrsp argc [] = []
pass_args_gcc arg_count floor vrsp argc (t ∷ ts) =
    let last = argc == (arg_count - 1) in
    vrsp
    ∷ pass_args_gcc arg_count floor (if last then floor else vrsp + t.size)
        (if last then argc else argc + 1) ts

-- the addresses read, argument by argument
unfoldable pub native_args_gcc : CxxType → List CxxType → List ℕ
native_args_gcc ret ts =
    reverse
      (pass_args_gcc (length ts) 0 (calculate_args_space ret ts - args_size ts) 0 (reverse ts))

-- `types->operator[](i).size`
unfoldable pub size_at : List CxxType → ℕ → ℕ
size_at ts i = elim (get_elem? ts i) [ none ↦ 0 | some t ↦ t.size ]

-- the loop of `create_indexes`, with the rounds left, which counts the index down
unfoldable pub create_indexes_loop : ℕ → List CxxType → ℕ → List ℕ → List ℕ
create_indexes_loop zero types current_offset offsets = offsets
create_indexes_loop (suc i) types current_offset offsets =
    create_indexes_loop i types (current_offset + size_at types i) (set offsets i current_offset)

-- `ArgumentsDeclaration::create_indexes`
unfoldable pub create_indexes : List CxxType → List ℕ
create_indexes types = create_indexes_loop (length types) types 0 (replicate (length types) 0)
