-- ===== src/Frame/Equivalence.antt =====
-- The loop with its explicit stack is the recursion over the scopes.
use microjit.Prelude.{ℕ, zero, suc, ◌+◌, ◌-◌, ◌*◌, ◌≤◌, ◌<◌, ◌≡◌, refl, List, [], ◌∷◌, some, arith}
use microjit.Types.{CxxType, simple_16_bit_align}
use microjit.CallLayout.{args_map}
use microjit.Ir.{declare_variable}
use microjit.Ir.Snapshot.{Snapshot, done, leaf, enter, scope_count}
use microjit.Frame.{
  StackFrameInfo, ScopeReport, aligned_size, declare, visit, pushed, frame_loop,
  create_frame_report, stack_reserve,
}
use microjit.Frame.Layout.{layout}

-- the entries of the stack, one after the other
layout_all : List ScopeReport → StackFrameInfo → StackFrameInfo
layout_all [] report = report
layout_all (e ∷ stack) report =
    layout_all stack (layout e.rest e.current_size e.current_object_count report)

-- rounds that the entries take
rounds : List ScopeReport → ℕ
rounds [] = 0
rounds (e ∷ stack) = 2 * scope_count e.rest - 1 + rounds stack

scope_count-pos : (p : Snapshot) → 1 ≤ scope_count p
unfolding scope_count
scope_count-pos done = omega arith
scope_count-pos (leaf _ rest) = scope_count-pos rest
scope_count-pos (enter _ child rest) = omega (arith, scope_count-pos rest)

visit-layout :
    (p : Snapshot) (s c : ℕ) (r : StackFrameInfo) (stack : List ScopeReport)
    → let v = visit p s c r in layout_all (pushed v.1 stack) v.0 ≡ layout_all stack (layout p s c r)
unfolding visit layout layout_all
visit-layout done s c r stack = refl
visit-layout (leaf (declare_variable v) rest) s c r stack =
    let s' = s + aligned_size s v.type_of in
    visit-layout rest s' (c + 1) (declare v s' (c + 1) r) stack
visit-layout (leaf _ rest) s c r stack = visit-layout rest s c r stack
visit-layout (enter _ child rest) s c r stack = refl

rounds-visit :
    (p : Snapshot) (s c : ℕ) (r : StackFrameInfo) (stack : List ScopeReport)
    → rounds (pushed (visit p s c r).1 stack) < 2 * scope_count p - 1 + rounds stack
unfolding visit rounds scope_count
rounds-visit done s c r stack = omega arith
rounds-visit (leaf (declare_variable v) rest) s c r stack =
    let s' = s + aligned_size s v.type_of in
    rounds-visit rest s' (c + 1) (declare v s' (c + 1) r) stack
rounds-visit (leaf _ rest) s c r stack = rounds-visit rest s c r stack
rounds-visit (enter _ child rest) s c r stack =
    omega (arith, scope_count-pos child, scope_count-pos rest)

frame_loop-layout :
    (fuel : ℕ) (stack : List ScopeReport) (r : StackFrameInfo)
    → rounds stack < fuel
    → frame_loop fuel stack r ≡ some (layout_all stack r)
unfolding frame_loop layout_all rounds
frame_loop-layout zero stack r h = absurd (omega arith)
frame_loop-layout (suc fuel) [] r h = refl
frame_loop-layout (suc fuel) (e ∷ stack) r h =
    let v = visit e.rest e.current_size e.current_object_count r in
    rw (
      frame_loop-layout fuel (pushed v.1 stack) v.0
          (omega (arith, rounds-visit e.rest e.current_size e.current_object_count r stack)),
      visit-layout e.rest e.current_size e.current_object_count r stack,
    )

-- the report before the first instruction
abbrev pub empty_report : CxxType → List CxxType → StackFrameInfo
empty_report ret args = record {
  max_frame_size = 0;
  max_object_allocation = 0;
  variable_map = [];
  args_map = args_map ret args;
}

-- The loop of `create_frame_report` ends after fewer rounds than twice the number of scopes, and
-- its report is the recursive layout of the main scope from the reserve on, with the size of the
-- frame rounded up to a multiple of 16.
pub create_frame_report-layout :
    (fuel : ℕ) (ret : CxxType) (args : List CxxType) (main_scope : Snapshot)
    → 2 * scope_count main_scope ≤ fuel
    → let report = layout main_scope stack_reserve 0 (empty_report ret args) in
      create_frame_report fuel ret args main_scope
      ≡ some (record report { max_frame_size = simple_16_bit_align report.max_frame_size })
unfolding create_frame_report rounds layout_all
create_frame_report-layout fuel ret args main_scope h = rw (
  frame_loop-layout fuel
      (record { rest = main_scope; current_size = stack_reserve; current_object_count = 0 } ∷ [])
      (empty_report ret args) (omega (arith, scope_count-pos main_scope)),
  create_frame_report,
)
