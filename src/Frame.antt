-- ===== src/Frame.antt =====
-- src/microjit/jit.cpp: `create_frame_report`, the layout of a compiled function's stack frame.
-- `args_map` is modelled in CallLayout.
pub mod Layout
pub mod Equivalence
pub mod Separation
pub mod Padding
mod Tests
use microjit.Prelude.{
  ℕ, zero, suc, ◌+◌, ◌-◌, ◌*◌, List, [], ◌∷◌, Option, none, some, leb, max, if◌then◌else◌,
}
use microjit.Prelude.Dict
use microjit.Prelude.Int.{ℤ, neg_ℕ}
use microjit.Types.{CxxType, simple_16_bit_align}
use microjit.CallLayout.{args_map}
use microjit.Ir.{Variable, Instruction, declare_variable}
use microjit.Ir.Snapshot.{Snapshot, done, leaf, enter}

-- `StackFrameInfo`
pub record StackFrameInfo : Type 0 where
  pub max_frame_size : ℕ
  pub max_object_allocation : ℕ
  pub variable_map : List (ℕ × ℤ)
  pub args_map : List (ℕ × ℕ)

-- `ScopeReport`: `rest` is what `scope` and `iterating` stand for, the instructions still to visit.
pub record ScopeReport : Type 0 where
  pub rest : Snapshot
  pub current_size : ℕ
  pub current_object_count : ℕ

abbrev pub stack_reserve : ℕ
stack_reserve = 8

-- what a variable adds to `current_size`
unfoldable pub aligned_size : ℕ → CxxType → ℕ
aligned_size current_size type_of =
    let aligned_size = type_of.size in
    if leb 16 aligned_size
    then aligned_size + (simple_16_bit_align (current_size + aligned_size) - current_size)
    else aligned_size

-- the case `IT_DECLARE_VARIABLE`, with `current_size` and `current_object_count` as they are after it
unfoldable pub declare :
    Variable → (current_size current_object_count : ℕ) → StackFrameInfo → StackFrameInfo
declare as_var current_size current_object_count report = record report {
  max_frame_size = max report.max_frame_size current_size;
  max_object_allocation = max report.max_object_allocation current_object_count;
  variable_map = Dict.insert as_var.address (neg_ℕ current_size) report.variable_map;
}

-- The `for` loop: it runs to the end of the scope, or stops at an instruction that opens a scope,
-- with the two entries that it pushes: this scope from the next instruction on, and the new one.
unfoldable pub visit :
    Snapshot → ℕ → ℕ → StackFrameInfo → StackFrameInfo × Option (ScopeReport × ScopeReport)
visit done s c report = (report, none)
visit (leaf (declare_variable v) rest) s c report =
    let s' = s + aligned_size s v.type_of in visit rest s' (c + 1) (declare v s' (c + 1) report)
visit (leaf _ rest) s c report = visit rest s c report
visit (enter _ child rest) s c report = (
  report,
  some (
    record { rest = rest; current_size = s; current_object_count = c },
    record { rest = child; current_size = s; current_object_count = c },
  ),
)

abbrev pub pushed : Option (ScopeReport × ScopeReport) → List ScopeReport → List ScopeReport
pushed none stack = stack
pushed (some (current, child)) stack = child ∷ current ∷ stack

-- The `while` loop over the stack, its top at the head. `none`: the fuel ran out.
unfoldable pub frame_loop : ℕ → List ScopeReport → StackFrameInfo → Option StackFrameInfo
frame_loop zero stack report = none
frame_loop (suc fuel) [] report = some report
frame_loop (suc fuel) (current ∷ stack) report =
    let visited = visit current.rest current.current_size current.current_object_count report in
    frame_loop fuel (pushed visited.1 stack) visited.0

-- `create_frame_report`, given its fuel
unfoldable pub create_frame_report : ℕ → CxxType → List CxxType → Snapshot → Option StackFrameInfo
create_frame_report fuel ret args main_scope =
    elim (frame_loop fuel
      (record { rest = main_scope; current_size = stack_reserve; current_object_count = 0 } ∷ [])
      (record {
        max_frame_size = 0;
        max_object_allocation = 0;
        variable_map = [];
        args_map = args_map ret args;
      })) [
        | none ↦ none
        | some report ↦
            some (record report { max_frame_size = simple_16_bit_align report.max_frame_size })
      ]
