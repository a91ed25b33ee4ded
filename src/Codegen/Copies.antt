-- ===== src/Codegen/Copies.antt =====
-- Copies and destructors: the macro `VAR_COPY`, `copy_immediate_primitive_internal`,
-- `copy_immediate_internal`, `copy_construct_variable_internal`, `single_scope_destructor_call` and
-- `iterative_destructor_call` of src/microjit/jit_x86_64.cpp.
use microjit.Prelude.{
  ℕ, zero, suc, ◌+◌, ◌*◌, ◌/◌, ◌%◌, ◌^◌, Bool, true, false, ◌||◌, List, [], ◌∷◌, ◌++◌, Option, none,
  some, leb, if◌then◌else◌,
}
use microjit.Prelude.Dict
use microjit.Prelude.Int.{ℤ, pos, is_negative, abs}
use microjit.Types.{CxxType}
use microjit.Raise.{Result, ok, or_raise, ◌>>=◌, out_of_range}
use microjit.Ir.{Variable}
use microjit.Frame.{StackFrameInfo}
use microjit.Codegen.Asm.{
  Width, byte, word, dword, qword, Gp, rb, rc, rd, rdi, rsi, rsp, r10, reg, mem, imm, mov, lea, add,
  sub, call, Code, r64, at_reg, in_frame, load_args_space, low, width_of, by_width, ◌>+>◌,
}

-- `variable_map.at(...)`
abbrev pub offset_of : StackFrameInfo → Variable → Result ℤ
offset_of frame v = or_raise (Dict.lookup v.address frame.variable_map) out_of_range

-- `VAR_COPY`: from where `rcx` points to where `rbx` points
unfoldable pub var_copy : (size : ℕ) → (is_primitive : Bool) → (copy : ℕ) → Result Code
var_copy size true copy =
    by_width size λ w. mov (reg w rd) (at_reg w rc) ∷ mov (at_reg w rb) (reg w rd) ∷ []
var_copy size false copy = ok (mov (r64 rdi) (r64 rb) ∷ mov (r64 rsi) (r64 rc) ∷ call copy ∷ [])

-- `copy_immediate_primitive_internal`: to where `rdi` points
unfoldable pub copy_immediate_primitive : (value : ℕ) → CxxType → Result Code
copy_immediate_primitive value t =
    by_width t.size λ w. mov (reg w rc) (imm (low w value)) ∷ mov (at_reg w rdi) (reg w rc) ∷ []

-- byte number `seek`
abbrev pub nth_byte : ℕ → ℕ → ℕ
nth_byte value seek = value / 2 ^ (8 * seek) % 256

-- the loop of the last case, with `count` bytes to go
unfoldable pub copy_bytes : (value seek count : ℕ) → Code
copy_bytes value seek zero = []
copy_bytes value seek (suc count) =
    mov (mem byte rsp (pos seek)) (imm (nth_byte value seek)) ∷ copy_bytes value (seek + 1) count

-- the `switch` of `copy_immediate_internal`
unfoldable pub immediate_on_stack : (value size : ℕ) → Option Width → Code
immediate_on_stack value size (some byte) = mov (at_reg byte rsp) (imm (low byte value)) ∷ []
immediate_on_stack value size (some word) = mov (at_reg word rsp) (imm (low word value)) ∷ []
immediate_on_stack value size (some dword) = mov (at_reg dword rsp) (imm (low dword value)) ∷ []
immediate_on_stack value size (some qword) =
    mov (r64 rc) (imm (low qword value)) ∷ mov (at_reg qword rsp) (r64 rc) ∷ []
immediate_on_stack value size none = copy_bytes value 0 size

-- `copy_immediate_internal`
unfoldable pub copy_immediate : (value : ℕ) → CxxType → (ctor : ℕ) → Code
copy_immediate value t ctor =
    sub (r64 rsp) (imm t.size)
    ∷ (immediate_on_stack value t.size (width_of t.size)
        ++ mov (r64 rsi) (r64 rsp) ∷ call ctor ∷ add (r64 rsp) (imm t.size) ∷ [])

-- `RelativeObject`, whose `unit` is one of the two that are used
pub data RelativeObject : Type 0 where
  stack_base_ptr virtual_stack_base_ptr : (offset : ℤ) → RelativeObject

abbrev pub is_virtual : RelativeObject → Bool
is_virtual (stack_base_ptr offset) = false
is_virtual (virtual_stack_base_ptr offset) = true

-- the address of the object, in a register
unfoldable pub address_into : Gp → RelativeObject → Code
address_into g (stack_base_ptr offset) = lea (r64 g) (in_frame offset) ∷ []
address_into g (virtual_stack_base_ptr offset) =
    mov (r64 g) (r64 r10)
    ∷ (if is_negative offset
        then sub (r64 g) (imm (abs offset))
        else add (r64 g) (imm (abs offset)))
    ∷ []

-- `copy_construct_variable_internal`
unfoldable pub copy_construct_variable :
    CxxType → (copy : ℕ) → (receive_target copy_target : RelativeObject) → Result Code
copy_construct_variable t copy receive_target copy_target =
    ok (
      (if is_virtual receive_target || is_virtual copy_target
        then mov (r64 r10) load_args_space ∷ []
        else [])
      ++ address_into rb receive_target
      ++ address_into rc copy_target)
    >+> var_copy t.size t.is_primitive copy

-- The loop of `single_scope_destructor_call`, over `get_variables()`; `next` is one more than
-- `iterating`.
unfoldable pub single_scope_destructor_call :
    StackFrameInfo → (next : ℕ) → List Variable → Result Code
single_scope_destructor_call frame next [] = ok []
single_scope_destructor_call frame next (v ∷ vars) =
    let rest = single_scope_destructor_call frame next vars in
    if v.type_of.is_primitive
    then rest
    else if leb next v.scope_offset
    then ok []
    else (offset_of frame v >>= λ offset.
        ok (mov (r64 rdi) (in_frame offset) ∷ call v.type_of.destructor ∷ []))
      >+> rest

-- `iterative_destructor_call`: the scopes on the stack, the innermost first, by their variables
unfoldable pub iterative_destructor_call : StackFrameInfo → List (ℕ × List Variable) → Result Code
iterative_destructor_call frame [] = ok []
iterative_destructor_call frame ((next, vars) ∷ scopes) =
    single_scope_destructor_call frame next vars >+> iterative_destructor_call frame scopes
