-- ===== src/Codegen/Tests.antt =====
-- Functions through the code generator, and the theorems about their code.
mod Running
mod Bytes
mod Calling
mod Accepted
mod Refused
use microjit.Prelude.{ℕ, ◌≡◌, refl, true, [], ◌∷◌, some, arith}
use microjit.Prelude.Int.{negsuc}
use microjit.Prelude.Dict
use microjit.Types.{CxxType}
use microjit.Types.Sample
use microjit.Raise.{Ensures, ok}
use microjit.Ir.{
  Variable, immediate, variable, expression, Branch, branch_while, declare_variable, construct,
  copy_construct, assign, return_from, branch, binary_add, binary_lesser,
}
use microjit.Ir.Snapshot.{Snapshot, done, leaf, enter, scope_count, variables}
use microjit.Frame.{StackFrameInfo}
use microjit.Codegen.Asm.{
  dword, rb, rc, rd, rdi, rbp, rsp, reg, imm, mov, lea, sub, push, jmp, bind, leave, ret, r64,
  at_reg, in_frame, load_args_space,
}
use microjit.Codegen.Copies.{
  var_copy, copy_immediate_primitive, single_scope_destructor_call, iterative_destructor_call,
}
use microjit.Codegen.Calls.{Compiled}
use microjit.Codegen.Branches.{branches_of, branches_loop, create_branches_report}
use microjit.Codegen.Scopes.{emit_plain, emit_copy, emit_return, emit_result, leave_loop}
use microjit.Codegen.Compile.{
  scan, after_scan, round, compile_scopes, prologue, epilogue, compile_with, compile_internal,
}
use microjit.Codegen.Whole.{IsFunction, compile_internal-IsFunction}

abbrev local : ℕ → CxxType → ℕ → Variable
local address t offset = record {
  address = address;
  parent_scope = 0;
  type_of = t;
  properties = 0;
  scope_offset = offset;
}

abbrev pub x : Variable
x = local 10 Sample.int32 0

abbrev pub y : Variable
y = local 11 Sample.int32 2

abbrev pub o : Variable
o = local 12 Sample.object 0

-- `while (x < y) { object o; x = x + y; }`
abbrev pub loop : Branch
loop = record {
  address = 20;
  scope_offset = 4;
  branch_type = branch_while (expression binary_lesser true (variable x) (variable y));
  sub_scope = 1;
}

abbrev pub body : Snapshot
body = leaf (declare_variable o) (
    leaf (construct o 100)
      (leaf (assign x (expression binary_add true (variable x) (variable y)) 0) done))

abbrev main_scope : Snapshot
main_scope = leaf (declare_variable x) (
    leaf (copy_construct x (immediate 1 Sample.int32) 0) (
      leaf (declare_variable y) (
        leaf (copy_construct y (immediate 9 Sample.int32) 0)
          (enter (branch loop) body (leaf (return_from (some x)) done)))))

abbrev pub frame : StackFrameInfo
frame = record {
  max_frame_size = 80;
  max_object_allocation = 1;
  variable_map = (10, negsuc 11) ∷ (11, negsuc 15) ∷ (12, negsuc 63) ∷ [];
  args_map = [];
}

abbrev pub func : Compiled
func = record { return_type = Sample.int32; argument_types = [] }

compile_internal-IsFunction_example :
    Ensures (IsFunction frame) (compile_internal 4 (λ trampoline. 500) frame func main_scope)
unfolding scope_count
compile_internal-IsFunction_example =
    compile_internal-IsFunction 4 (λ trampoline. 500) frame func main_scope (omega arith)

-- `int32 f() { int32 x = 1; return x; }`
abbrev small : Snapshot
small =
    leaf (declare_variable x)
      (leaf (copy_construct x (immediate 1 Sample.int32) 0) (leaf (return_from (some x)) done))

compile_run :
    compile_internal 2 (λ trampoline. 500) frame func small
    ≡ ok (
        some (
          push (r64 rbp)
          ∷ mov (r64 rbp) (r64 rsp)
          ∷ sub (r64 rsp) (imm 80)
          ∷ mov load_args_space (r64 rdi)
          ∷ lea (r64 rdi) (in_frame (negsuc 11))
          ∷ mov (reg dword rc) (imm 1)
          ∷ mov (at_reg dword rdi) (reg dword rc)
          ∷ mov (r64 rb) load_args_space
          ∷ lea (r64 rc) (in_frame (negsuc 11))
          ∷ mov (reg dword rd) (at_reg dword rc)
          ∷ mov (at_reg dword rb) (reg dword rd)
          ∷ jmp 0
          ∷ bind 0
          ∷ leave
          ∷ ret
          ∷ []))
unfolding compile_internal compile_with create_branches_report branches_loop branches_of
    compile_scopes round scan after_scan emit_plain emit_copy emit_return emit_result leave_loop
    variables copy_immediate_primitive single_scope_destructor_call iterative_destructor_call
    var_copy prologue epilogue Dict.lookup
compile_run = refl
