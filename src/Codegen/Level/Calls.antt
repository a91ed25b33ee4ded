-- ===== src/Codegen/Level/Calls.antt =====
-- A call leaves the stack pointer where it was: what it takes for the arguments and the result, it
-- gives back.
use microjit.Prelude.{
  ℕ, ◌+◌, ◌≡◌, refl, ap, ◌∙◌, Bool, true, false, List, [], ◌∷◌, ◌++◌, Option, none, some, ltb,
  if◌then◌else◌,
}
use microjit.Types.{CxxType}
use microjit.Raise.{Result, ok, raise, returned, raised, Ensures-any}
use microjit.Ir.{Variable, Value, immediate, argument, variable, expression, Invocation}
use microjit.Frame.{StackFrameInfo}
use microjit.Codegen.Asm.{
  rb, rc, rdi, rsi, rsp, r10, r11, imm, mov, lea, add, sub, call, Code, r64, in_frame, ◌>+>◌,
}
use microjit.Codegen.Copies.{offset_of}
use microjit.Codegen.Calls.{
  Compiled, argument_type, argument_offset, pass_immediate, pass_value, pass_values, passed_type,
  destroy_values, copy_return, take_return, aligned_args_space, invoke_function,
}
use microjit.Codegen.Balance.{effect, depth_after, depth_after-append, Level, Ensures-then}
use microjit.Codegen.Level.Copies.{
  IsLevel, var_copy-Level, copy_immediate_primitive-Level, copy_immediate-Level, skip-Level,
  Ensures-if, shrink_by-grown,
}

pass_immediate-Level : (value : ℕ) (t : CxxType) → IsLevel (pass_immediate value t)
pass_immediate-Level value t =
    Ensures-if t.is_primitive _ _ (copy_immediate_primitive-Level value t)
      (returned (copy_immediate-Level value t t.copy_constructor))

pass_value-Level :
    (frame : StackFrameInfo) (func : Compiled) (x : Value) → IsLevel (pass_value frame func x)
unfolding pass_value depth_after effect
pass_value-Level frame func (immediate value t) =
    Ensures-then (ok (sub (r64 r10) (imm t.size) ∷ mov (r64 rdi) (r64 r10) ∷ [])) _
      (returned λ n. refl) (pass_immediate-Level value t)
pass_value-Level frame func (argument idx) = Ensures-any (argument_type func idx) λ t.
    Ensures-any (argument_offset func idx) λ offset.
      Ensures-then
        (ok (
          sub (r64 r10) (imm t.size)
          ∷ mov (r64 rb) (r64 r10)
          ∷ mov (r64 rc) (r64 r11)
          ∷ add (r64 rc) (imm (offset + func.return_type.size))
          ∷ []))
        _ (returned λ n. refl) (var_copy-Level t.size t.is_primitive t.copy_constructor)
pass_value-Level frame func (variable v) = Ensures-any (offset_of frame v) λ offset.
    Ensures-then
      (ok (
        sub (r64 r10) (imm v.type_of.size)
        ∷ mov (r64 rb) (r64 r10)
        ∷ lea (r64 rc) (in_frame offset)
        ∷ []))
      _ (returned λ n. refl)
      (var_copy-Level v.type_of.size v.type_of.is_primitive v.type_of.copy_constructor)
pass_value-Level frame func (expression _ _ _ _) = raised

pass_values-Level :
    (frame : StackFrameInfo) (func : Compiled) (xs : List Value)
    → IsLevel (pass_values frame func xs)
unfolding pass_values
pass_values-Level frame func [] = returned skip-Level
pass_values-Level frame func (x ∷ xs) =
    Ensures-then _ _ (pass_value-Level frame func x) (pass_values-Level frame func xs)

destroy_one-Level :
    (size destructor : ℕ) (t : Bool)
    → Level (
        sub (r64 r10) (imm size)
        ∷ (if t then [] else mov (r64 rdi) (r64 r10) ∷ call destructor ∷ []))
unfolding depth_after effect
destroy_one-Level size destructor true n = refl
destroy_one-Level size destructor false n = refl

destroy_values-Level : (func : Compiled) (xs : List Value) → IsLevel (destroy_values func xs)
unfolding destroy_values
destroy_values-Level func [] = returned skip-Level
destroy_values-Level func (x ∷ xs) =
    Ensures-then _ _
      (Ensures-any (passed_type func x)
        λ t. returned (destroy_one-Level t.size t.destructor t.is_primitive))
      (destroy_values-Level func xs)

copy_return-Level : (frame : StackFrameInfo) (v : Option Variable) → IsLevel (copy_return frame v)
unfolding copy_return depth_after effect
copy_return-Level frame none = returned λ n. refl
copy_return-Level frame (some v) = Ensures-any (offset_of frame v) λ offset.
    Ensures-then (ok (lea (r64 rb) (in_frame offset) ∷ mov (r64 rc) (r64 r11) ∷ [])) _
      (returned λ n. refl)
      (var_copy-Level v.type_of.size v.type_of.is_primitive v.type_of.copy_constructor)

destroy_result-Level :
    (destructor : ℕ) (t : Bool)
    → Level (if t then [] else mov (r64 rdi) (r64 r11) ∷ call destructor ∷ [])
unfolding depth_after effect
destroy_result-Level destructor true n = refl
destroy_result-Level destructor false n = refl

take_return-Level :
    (frame : StackFrameInfo) (ins : Invocation) (t : Bool) → IsLevel (take_return frame ins t)
unfolding take_return
take_return-Level frame ins false = returned skip-Level
take_return-Level frame ins true =
    Ensures-then _ _ (copy_return-Level frame ins.return_variable)
      (returned (destroy_result-Level _ ins.target_return_type.is_primitive))

-- what stands before the arguments, and between them and the end
abbrev start : ℕ → Code
start space = mov (r64 r10) (r64 rsp) ∷ sub (r64 rsp) (imm space) ∷ []

abbrev middle : (space trampoline caller : ℕ) → Code
middle space trampoline caller =
    mov (r64 rdi) (imm trampoline)
    ∷ mov (r64 rsi) (r64 rsp)
    ∷ call caller
    ∷ mov (r64 r11) (r64 rsp)
    ∷ add (r64 rsp) (imm space)
    ∷ mov (r64 r10) (r64 rsp)
    ∷ []

depth_after-start :
    (space n : ℕ) (code : Code) → depth_after n (start space ++ code) ≡ depth_after (n + space) code
unfolding depth_after effect
depth_after-start space n code = refl

depth_after-middle :
    (space trampoline caller n : ℕ) (code : Code)
    → depth_after (n + space) (middle space trampoline caller ++ code) ≡ depth_after n code
unfolding depth_after effect
depth_after-middle space trampoline caller n code =
    ap (λ r. elim r [ none ↦ none | some m ↦ depth_after m code ]) (shrink_by-grown space n)

around-Level :
    (space trampoline caller : ℕ) (xs ys : Code)
    → Level xs
    → Level ys
    → Level (start space ++ (xs ++ (middle space trampoline caller ++ ys)))
around-Level space trampoline caller xs ys h k n =
    depth_after-start space n _
    ∙ depth_after-append xs _ (n + space) (n + space) (h (n + space))
    ∙ depth_after-middle space trampoline caller n ys
    ∙ k n

Ensures-around :
    (space trampoline caller : ℕ) (m k : Result Code)
    → IsLevel m
    → IsLevel k
    → IsLevel (ok (start space) >+> m >+> ok (middle space trampoline caller) >+> k)
Ensures-around space trampoline caller (ok xs) (ok ys) (returned h) (returned g) =
    returned (around-Level space trampoline caller xs ys h g)
Ensures-around space trampoline caller (raise e) k h g = raised
Ensures-around space trampoline caller (ok xs) (raise e) h g = raised

pub invoke_function-Level :
    (caller : ℕ) (frame : StackFrameInfo) (func : Compiled) (ins : Invocation)
    → IsLevel (invoke_function caller frame func ins)
unfolding invoke_function
invoke_function-Level caller frame func ins =
    Ensures-around (aligned_args_space ins) ins.target_trampoline caller _ _
      (pass_values-Level frame func ins.passed_arguments)
      (Ensures-then _ _ (destroy_values-Level func ins.passed_arguments)
        (take_return-Level frame ins (ltb 0 ins.target_return_type.size)))
