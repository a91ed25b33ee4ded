-- ===== src/Codegen/Level/Copies.antt =====
-- Copies and destructors leave the stack pointer where it was.
use microjit.Prelude.{
  ℕ, zero, suc, ◌+◌, ◌≡◌, refl, ap, ◌∙◌, Bool, true, false, ◌||◌, List, [], ◌∷◌, ◌++◌, Option, none,
  some, arith, leb, Bool-cases, inl, inr, if◌then◌else◌,
}
use microjit.Prelude.Int.{is_negative}
use microjit.Types.{CxxType}
use microjit.Raise.{Result, ok, ◌>>=◌, Ensures, returned, Ensures-any}
use microjit.Ir.{Variable}
use microjit.Frame.{StackFrameInfo}
use microjit.Codegen.Asm.{
  Width, byte, word, dword, qword, rb, rc, rdi, rsi, rsp, r10, imm, mov, sub, add, call, Code, r64,
  in_frame, load_args_space, width_of,
}
use microjit.Codegen.Copies.{
  offset_of, var_copy, copy_immediate_primitive, copy_bytes, immediate_on_stack, copy_immediate,
  RelativeObject, stack_base_ptr, virtual_stack_base_ptr, is_virtual, address_into,
  copy_construct_variable, single_scope_destructor_call, iterative_destructor_call,
}
use microjit.Codegen.Balance.{
  effect, depth_after, shrink_by, depth_after-append, Level, Level-append, Ensures-then,
  Ensures-by_width,
}

abbrev pub IsLevel : Result Code → Type 0
IsLevel = Ensures Level

pub var_copy-Level : (size : ℕ) (p : Bool) (copy : ℕ) → IsLevel (var_copy size p copy)
unfolding var_copy depth_after effect
var_copy-Level size true copy = Ensures-by_width size _ λ w n. refl
var_copy-Level size false copy = returned λ n. refl

pub copy_immediate_primitive-Level :
    (value : ℕ) (t : CxxType) → IsLevel (copy_immediate_primitive value t)
unfolding copy_immediate_primitive depth_after effect
copy_immediate_primitive-Level value t = Ensures-by_width t.size _ λ w n. refl

depth_after-copy_bytes :
    (value seek count n : ℕ) → depth_after n (copy_bytes value seek count) ≡ some n
unfolding copy_bytes depth_after effect
depth_after-copy_bytes value seek zero n = refl
depth_after-copy_bytes value seek (suc count) n = depth_after-copy_bytes value (seek + 1) count n

depth_after-immediate :
    (value size : ℕ) (w : Option Width) → Level (immediate_on_stack value size w)
unfolding immediate_on_stack depth_after effect
depth_after-immediate value size (some byte) n = refl
depth_after-immediate value size (some word) n = refl
depth_after-immediate value size (some dword) n = refl
depth_after-immediate value size (some qword) n = refl
depth_after-immediate value size none n = depth_after-copy_bytes value 0 size n

pub shrink_by-grown : (size n : ℕ) → shrink_by size (n + size) ≡ some n
shrink_by-grown size n = ground arith

-- the end of the copy, which gives back the space
depth_after-drop :
    (size ctor n : ℕ)
    → depth_after (n + size) (mov (r64 rsi) (r64 rsp) ∷ call ctor ∷ add (r64 rsp) (imm size) ∷ [])
      ≡ some n
unfolding depth_after effect
depth_after-drop size ctor n =
    ap (λ r. elim r [ none ↦ none | some m ↦ some m ]) (shrink_by-grown size n)

depth_after-sub :
    (code : Code) (size n : ℕ)
    → depth_after n (sub (r64 rsp) (imm size) ∷ code) ≡ depth_after (n + size) code
unfolding depth_after effect
depth_after-sub code size n = refl

pub copy_immediate-Level :
    (value : ℕ) (t : CxxType) (ctor : ℕ) → Level (copy_immediate value t ctor)
unfolding copy_immediate
copy_immediate-Level value t ctor n =
    let start : depth_after n (copy_immediate value t ctor)
        ≡ depth_after (n + t.size) (
            immediate_on_stack value t.size (width_of t.size)
            ++ mov (r64 rsi) (r64 rsp) ∷ call ctor ∷ add (r64 rsp) (imm t.size) ∷ []) =
      depth_after-sub _ t.size n in
    start
    ∙ depth_after-append (immediate_on_stack value t.size (width_of t.size)) _ (n + t.size)
        (n + t.size) (depth_after-immediate value t.size (width_of t.size) (n + t.size))
    ∙ depth_after-drop t.size ctor n

-- an address goes to a register other than the stack pointer
address_into-Level : (object : RelativeObject) → Level (address_into rb object)
unfolding address_into depth_after effect
address_into-Level (stack_base_ptr offset) n = refl
address_into-Level (virtual_stack_base_ptr offset) n = elim (Bool-cases (is_negative offset)) [
  | inl h ↦ rw h refl
  | inr h ↦ rw h refl
]

address_into_rc-Level : (object : RelativeObject) → Level (address_into rc object)
unfolding address_into depth_after effect
address_into_rc-Level (stack_base_ptr offset) n = refl
address_into_rc-Level (virtual_stack_base_ptr offset) n = elim (Bool-cases (is_negative offset)) [
  | inl h ↦ rw h refl
  | inr h ↦ rw h refl
]

load_args-Level : (t : Bool) → Level (if t then mov (r64 r10) load_args_space ∷ [] else [])
unfolding depth_after effect
load_args-Level true n = refl
load_args-Level false n = refl

pub copy_construct_variable-Level :
    (t : CxxType) (copy : ℕ) (x y : RelativeObject) → IsLevel (copy_construct_variable t copy x y)
unfolding copy_construct_variable
copy_construct_variable-Level t copy x y =
    Ensures-then _ _
      (returned (
        Level-append _ _
          (Level-append _ _ (load_args-Level (is_virtual x || is_virtual y)) (address_into-Level x))
          (address_into_rc-Level y)))
      (var_copy-Level t.size t.is_primitive copy)

destroy_one-Level :
    (frame : StackFrameInfo) (v : Variable)
    → IsLevel (
        offset_of frame v >>= λ offset.
        ok (mov (r64 rdi) (in_frame offset) ∷ call v.type_of.destructor ∷ []))
unfolding depth_after effect
destroy_one-Level frame v = Ensures-any (offset_of frame v) λ offset. returned λ n. refl

pub skip-Level : Level []
unfolding depth_after
skip-Level n = refl

-- a choice between two emitters
pub Ensures-if :
    (t : Bool) (m k : Result Code) → IsLevel m → IsLevel k → IsLevel (if t then m else k)
Ensures-if true m k h g = h
Ensures-if false m k h g = g

pub single_scope_destructor_call-Level :
    (frame : StackFrameInfo) (next : ℕ) (vars : List Variable)
    → IsLevel (single_scope_destructor_call frame next vars)
unfolding single_scope_destructor_call
single_scope_destructor_call-Level frame next [] = returned skip-Level
single_scope_destructor_call-Level frame next (v ∷ vars) =
    let rest = single_scope_destructor_call-Level frame next vars in
    Ensures-if v.type_of.is_primitive _ _ rest (
      Ensures-if (leb next v.scope_offset) _ _ (returned skip-Level)
        (Ensures-then _ _ (destroy_one-Level frame v) rest))

pub iterative_destructor_call-Level :
    (frame : StackFrameInfo) (scopes : List (ℕ × List Variable))
    → IsLevel (iterative_destructor_call frame scopes)
unfolding iterative_destructor_call
iterative_destructor_call-Level frame [] = returned skip-Level
iterative_destructor_call-Level frame ((next, vars) ∷ scopes) =
    Ensures-then _ _ (single_scope_destructor_call-Level frame next vars)
      (iterative_destructor_call-Level frame scopes)
