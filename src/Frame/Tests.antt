-- ===== src/Frame/Tests.antt =====
-- A function `int64 f(int32)` with a nested scope, and the theorems about its frame.
use microjit.Prelude.{ℕ, ◌+◌, ◌%◌, ◌≤◌, ◌≡◌, refl, [], ◌∷◌, some, arith}
use microjit.Prelude.Int.{negsuc}
use microjit.Prelude.Dict
use microjit.Types.{CxxType, simple_16_bit_align, args_size}
use microjit.Types.Sample
use microjit.CallLayout.{args_map, args_map_loop}
use microjit.Ir.{Variable, declare_variable, scope_create}
use microjit.Ir.Snapshot.{Snapshot, done, leaf, enter, declared, scope_count, Distinct}
use microjit.Frame.{
  StackFrameInfo, aligned_size, declare, visit, frame_loop, create_frame_report, stack_reserve,
}
use microjit.Frame.Layout.{layout}
use microjit.Frame.Equivalence.{empty_report, create_frame_report-layout}
use microjit.Frame.Separation.{IsSeparated, create_frame_report-IsSeparated}
use microjit.Frame.Padding.{aligned_size-misaligned}

abbrev local : ℕ → CxxType → ℕ → Variable
local address t offset = record {
  address = address;
  parent_scope = 0;
  type_of = t;
  properties = 0;
  scope_offset = offset;
}

abbrev inner : Snapshot
inner = leaf (declare_variable (local 11 Sample.object 0)) done

abbrev main_scope : Snapshot
main_scope =
    leaf (declare_variable (local 10 Sample.int32 0))
      (enter (scope_create 1) inner (leaf (declare_variable (local 12 Sample.int64 2)) done))

frame_run :
    create_frame_report 9 Sample.int64 (Sample.int32 ∷ []) main_scope
    ≡ some (record {
      max_frame_size = 80;
      max_object_allocation = 2;
      variable_map = (10, negsuc 11) ∷ (11, negsuc 71) ∷ (12, negsuc 19) ∷ [];
      args_map = (0, 12) ∷ [];
    })
unfolding create_frame_report frame_loop visit declare aligned_size simple_16_bit_align Dict.insert
    args_map args_map_loop args_size
frame_run = refl

main_scope-Distinct : Distinct (declared main_scope)
unfolding declared
main_scope-Distinct = omega arith

create_frame_report-layout_example :
    create_frame_report 9 Sample.int64 (Sample.int32 ∷ []) main_scope
    ≡ some
        (record (layout main_scope stack_reserve 0
          (empty_report Sample.int64 (Sample.int32 ∷ []))) {
            max_frame_size =
                simple_16_bit_align
                  (layout main_scope stack_reserve 0
                    (empty_report Sample.int64 (Sample.int32 ∷ []))).max_frame_size;
          })
unfolding scope_count
create_frame_report-layout_example =
    create_frame_report-layout 9 Sample.int64 (Sample.int32 ∷ []) main_scope (omega arith)

create_frame_report-IsSeparated_example :
    (report : StackFrameInfo) × (create_frame_report 9 Sample.int64 (Sample.int32 ∷ []) main_scope
      ≡ some report)
    × IsSeparated report.variable_map report.max_frame_size [] main_scope
unfolding scope_count
create_frame_report-IsSeparated_example =
    create_frame_report-IsSeparated 9 Sample.int64 (Sample.int32 ∷ []) main_scope (omega arith)
      main_scope-Distinct

aligned_size-misaligned_example :
    (48 ≤ aligned_size 12 Sample.object) × ((12 + aligned_size 12 Sample.object) % 16 ≡ 8)
aligned_size-misaligned_example = aligned_size-misaligned 12 Sample.object (omega arith)
