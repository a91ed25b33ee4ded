-- ===== src/Codegen/Calls.antt =====
-- `invoke_function` of src/microjit/jit_x86_64.cpp.
use microjit.Prelude.{
  ℕ, ◌+◌, Bool, true, false, List, [], ◌∷◌, Option, none, some, ltb, get_elem?, if◌then◌else◌,
}
use microjit.Types.{CxxType, simple_16_bit_align}
use microjit.CallLayout.{create_indexes}
use microjit.Raise.{Result, ok, raise, or_raise, ◌>>=◌, expression_as_argument, undefined}
use microjit.Ir.{Variable, Value, immediate, argument, variable, expression, Invocation}
use microjit.Frame.{StackFrameInfo}
use microjit.Codegen.Asm.{
  Gp, rb, rc, rdi, rsi, rsp, r10, r11, imm, mov, lea, add, sub, call, Code, r64, in_frame, ◌>+>◌,
}
use microjit.Codegen.Copies.{offset_of, var_copy, copy_immediate_primitive, copy_immediate}

-- what the compiler reads of the `RectifiedFunction` that it compiles
pub record Compiled : Type 0 where
  pub return_type : CxxType
  pub argument_types : List CxxType

-- `argument_types()[idx]` and `argument_offsets()[idx]`, which check nothing
abbrev pub argument_type : Compiled → ℕ → Result CxxType
argument_type func idx = or_raise (get_elem? func.argument_types idx) undefined

abbrev pub argument_offset : Compiled → ℕ → Result ℕ
argument_offset func idx = or_raise (get_elem? (create_indexes func.argument_types) idx) undefined

-- the copy of an immediate to where `rdi` points
abbrev pub pass_immediate : ℕ → CxxType → Result Code
pass_immediate value t =
    if t.is_primitive
    then copy_immediate_primitive value t
    else ok (copy_immediate value t t.copy_constructor)

-- the first loop over the arguments: one of them, at the falling address in `r10`
unfoldable pub pass_value : StackFrameInfo → Compiled → Value → Result Code
pass_value frame func (immediate value t) =
    ok (sub (r64 r10) (imm t.size) ∷ mov (r64 rdi) (r64 r10) ∷ []) >+> pass_immediate value t
pass_value frame func (argument idx) = argument_type func idx >>= λ t.
    argument_offset func idx >>= λ offset.
    ok (
      sub (r64 r10) (imm t.size)
      ∷ mov (r64 rb) (r64 r10)
      ∷ mov (r64 rc) (r64 r11)
      ∷ add (r64 rc) (imm (offset + func.return_type.size))
      ∷ [])
    >+> var_copy t.size t.is_primitive t.copy_constructor
pass_value frame func (variable v) = offset_of frame v >>= λ offset.
    ok (
      sub (r64 r10) (imm v.type_of.size)
      ∷ mov (r64 rb) (r64 r10)
      ∷ lea (r64 rc) (in_frame offset)
      ∷ [])
    >+> var_copy v.type_of.size v.type_of.is_primitive v.type_of.copy_constructor
pass_value frame func (expression _ _ _ _) = raise expression_as_argument

unfoldable pub pass_values : StackFrameInfo → Compiled → List Value → Result Code
pass_values frame func [] = ok []
pass_values frame func (x ∷ xs) = pass_value frame func x >+> pass_values frame func xs

-- the type of an argument, as the second loop finds it
unfoldable pub passed_type : Compiled → Value → Result CxxType
passed_type func (immediate _ t) = ok t
passed_type func (argument idx) = argument_type func idx
passed_type func (variable v) = ok v.type_of
passed_type func (expression _ _ _ _) = raise expression_as_argument

-- the destructor of the object at an address, unless it is primitive
abbrev pub destroy_at : Gp → CxxType → Code
destroy_at g t = if t.is_primitive then [] else mov (r64 rdi) (r64 g) ∷ call t.destructor ∷ []

-- the second loop over the arguments
unfoldable pub destroy_values : Compiled → List Value → Result Code
destroy_values func [] = ok []
destroy_values func (x ∷ xs) =
    (passed_type func x >>= λ t. ok (sub (r64 r10) (imm t.size) ∷ destroy_at r10 t))
    >+> destroy_values func xs

-- the result goes to the variable, if there is one
unfoldable pub copy_return : StackFrameInfo → Option Variable → Result Code
copy_return frame none = ok []
copy_return frame (some v) = offset_of frame v >>= λ offset.
    ok (lea (r64 rb) (in_frame offset) ∷ mov (r64 rc) (r64 r11) ∷ [])
    >+> var_copy v.type_of.size v.type_of.is_primitive v.type_of.copy_constructor

unfoldable pub take_return : StackFrameInfo → Invocation → (has_result : Bool) → Result Code
take_return frame ins false = ok []
take_return frame ins true =
    copy_return frame ins.return_variable >+> ok (destroy_at r11 ins.target_return_type)

abbrev pub aligned_args_space : Invocation → ℕ
aligned_args_space ins =
    simple_16_bit_align (ins.target_return_type.size + ins.arguments_total_size)

-- `invoke_function`; `caller` is what `get_caller()` of the trampoline returns.
unfoldable pub invoke_function : (caller : ℕ) → StackFrameInfo → Compiled → Invocation → Result Code
invoke_function caller frame func ins =
    ok (mov (r64 r10) (r64 rsp) ∷ sub (r64 rsp) (imm (aligned_args_space ins)) ∷ [])
    >+> pass_values frame func ins.passed_arguments
    >+> ok (
        mov (r64 rdi) (imm ins.target_trampoline)
        ∷ mov (r64 rsi) (r64 rsp)
        ∷ call caller
        ∷ mov (r64 r11) (r64 rsp)
        ∷ add (r64 rsp) (imm (aligned_args_space ins))
        ∷ mov (r64 r10) (r64 rsp)
        ∷ [])
    >+> destroy_values func ins.passed_arguments
    >+> take_return frame ins (ltb 0 ins.target_return_type.size)
