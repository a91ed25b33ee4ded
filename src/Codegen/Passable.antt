-- ===== src/Codegen/Passable.antt =====
-- Calls that `invoke_function` of src/microjit/jit_x86_64.cpp emits code for, without an exception.
use mathlib.Core.Path.{subst}
use microjit.Prelude.{ℕ, ◌≡◌, refl, Bool, true, false, List, [], ◌∷◌, Option, none, some, ltb, All}
use microjit.Types.{CxxType}
use microjit.Raise.{Result, ok, raise, Ensures, returned}
use microjit.Ir.{Variable, Value, immediate, argument, variable, expression, Invocation}
use microjit.Frame.{StackFrameInfo}
use microjit.Codegen.Asm.{Width, Code, bytes, by_width, ◌>+>◌}
use microjit.Codegen.Copies.{offset_of, var_copy, copy_immediate_primitive}
use microjit.Codegen.Calls.{
  Compiled, argument_offset, pass_immediate, pass_value, pass_values, passed_type, destroy_values,
  copy_return, take_return, invoke_function,
}
use microjit.Codegen.Arithmetic.{by_width-bytes}
use microjit.Codegen.Passing.{IsNumber, HasTypes, IntoNumber}

-- no exception
unfoldable pub IsOk {ℓ} : {A : Type ℓ} → Result A → Type 0
IsOk (ok a) = Unit
IsOk (raise e) = ⊥

then-IsOk : (x y : Result Code) → IsOk x → IsOk y → IsOk (x >+> y)
unfolding IsOk
then-IsOk (ok xs) (ok ys) h g = tt
then-IsOk (raise e) y h g = h
then-IsOk (ok xs) (raise e) h g = g

-- what comes back
returns {ℓ} : {A : Type ℓ} (x : Result A) → IsOk x → (a : A) × (x ≡ ok a)
unfolding IsOk
returns (ok a) h = (a, refl)
returns (raise e) h = elim h [ ]

-- a size that a register can take
abbrev pub HasWidth : CxxType → Type 0
HasWidth t = (w : Width) × (t.size ≡ bytes w)

by_width-IsOk : (t : CxxType) (code : Width → Code) → HasWidth t → IsOk (by_width t.size code)
unfolding IsOk
by_width-IsOk t code (w, h) = rw (by_width-bytes w t.size code h) tt

var_copy-IsOk :
    (t : CxxType)
    → IsNumber t
    → HasWidth t
    → IsOk (var_copy t.size t.is_primitive t.copy_constructor)
unfolding var_copy
var_copy-IsOk t p h = rw p (by_width-IsOk t _ h)

copy_immediate_primitive-IsOk :
    (value : ℕ) (t : CxxType) → HasWidth t → IsOk (copy_immediate_primitive value t)
unfolding copy_immediate_primitive
copy_immediate_primitive-IsOk value t h = by_width-IsOk t _ h

pass_immediate-IsOk :
    (value : ℕ) (t : CxxType) → IsNumber t → HasWidth t → IsOk (pass_immediate value t)
unfolding IsOk copy_immediate_primitive
pass_immediate-IsOk value t p h = rw p (copy_immediate_primitive-IsOk value t h)

-- a value that can be found
unfoldable pub IsFound : StackFrameInfo → Compiled → Value → Type 0
IsFound frame func (immediate value t) = Unit
IsFound frame func (argument idx) = IsOk (argument_offset func idx)
IsFound frame func (variable v) = IsOk (offset_of frame v)
IsFound frame func (expression _ _ _ _) = Unit

pass_value-IsOk :
    (frame : StackFrameInfo) (func : Compiled) (x : Value) (t : CxxType)
    → passed_type func x ≡ ok t
    → IsFound frame func x
    → IsNumber t
    → HasWidth t
    → IsOk (pass_value frame func x)
unfolding passed_type pass_value IsFound IsOk
pass_value-IsOk frame func (immediate value u) t h f p w =
    let same : u ≡ t = cc in
    subst (λ t. IsNumber t → HasWidth t → IsOk (pass_value frame func (immediate value u))) same
      (λ q k. rw (returns (pass_immediate value u) (pass_immediate-IsOk value u q k)).1 tt) p w
pass_value-IsOk frame func (argument idx) t h f p w =
    let copied = returns _ (var_copy-IsOk t p w) in
    rw h (rw (returns (argument_offset func idx) f).1 (rw copied.1 tt))
pass_value-IsOk frame func (variable v) t h f p w =
    let same : v.type_of ≡ t = cc in
    subst (λ t. IsNumber t → HasWidth t → IsOk (pass_value frame func (variable v))) same
      (λ q k.
        rw (returns (offset_of frame v) f).1 (rw (returns _ (var_copy-IsOk v.type_of q k)).1 tt))
      p w
pass_value-IsOk frame func (expression _ _ _ _) t h f p w = cc

pass_values-IsOk :
    (frame : StackFrameInfo) (func : Compiled) (xs : List Value) (ts : List CxxType)
    → HasTypes func xs ts
    → All (IsFound frame func) xs
    → All IsNumber ts
    → All HasWidth ts
    → IsOk (pass_values frame func xs)
unfolding HasTypes pass_values IsOk
pass_values-IsOk frame func [] [] h f p w = tt
pass_values-IsOk frame func [] (t ∷ ts) h f p w = tt
pass_values-IsOk frame func (x ∷ xs) [] h f p w = elim h [ ]
pass_values-IsOk frame func (x ∷ xs) (t ∷ ts) h f p w =
    then-IsOk (pass_value frame func x) (pass_values frame func xs)
      (pass_value-IsOk frame func x t h.0 f.0 p.0 w.0)
      (pass_values-IsOk frame func xs ts h.1 f.1 p.1 w.1)

destroy_values-IsOk :
    (func : Compiled) (xs : List Value) (ts : List CxxType)
    → HasTypes func xs ts
    → IsOk (destroy_values func xs)
unfolding HasTypes destroy_values IsOk
destroy_values-IsOk func [] ts h = tt
destroy_values-IsOk func (x ∷ xs) [] h = elim h [ ]
destroy_values-IsOk func (x ∷ xs) (t ∷ ts) h =
    then-IsOk _ (destroy_values func xs) (rw h.0 tt) (destroy_values-IsOk func xs ts h.1)

-- the variable for the result, if there is one, is in the frame, and its type is a number of a width
unfoldable pub IsTarget : StackFrameInfo → Option Variable → Type 0
IsTarget frame none = Unit
IsTarget frame (some v) = IsOk (offset_of frame v) × HasWidth v.type_of

copy_return-IsOk :
    (frame : StackFrameInfo) (v : Option Variable)
    → IntoNumber v
    → IsTarget frame v
    → IsOk (copy_return frame v)
unfolding IntoNumber IsTarget copy_return IsOk
copy_return-IsOk frame none p h = tt
copy_return-IsOk frame (some v) p h =
    rw (returns (offset_of frame v) h.0).1 (rw (returns _ (var_copy-IsOk v.type_of p h.1)).1 tt)

take_return-IsOk :
    (frame : StackFrameInfo) (ins : Invocation) (t : Bool)
    → IntoNumber ins.return_variable
    → IsTarget frame ins.return_variable
    → IsOk (take_return frame ins t)
unfolding take_return IsOk
take_return-IsOk frame ins false p h = tt
take_return-IsOk frame ins true p h =
    then-IsOk (copy_return frame ins.return_variable) (ok _)
      (copy_return-IsOk frame ins.return_variable p h) tt

pub invoke_function-IsOk :
    (caller : ℕ) (frame : StackFrameInfo) (func : Compiled) (ins : Invocation) (ts : List CxxType)
    → HasTypes func ins.passed_arguments ts
    → All (IsFound frame func) ins.passed_arguments
    → All IsNumber ts
    → All HasWidth ts
    → IntoNumber ins.return_variable
    → IsTarget frame ins.return_variable
    → IsOk (invoke_function caller frame func ins)
unfolding invoke_function IsOk
invoke_function-IsOk caller frame func ins ts h f p w v t =
    let result = ltb 0 ins.target_return_type.size in
    let passed =
      returns (pass_values frame func ins.passed_arguments)
        (pass_values-IsOk frame func ins.passed_arguments ts h f p w) in
    let destroyed =
      returns (destroy_values func ins.passed_arguments)
        (destroy_values-IsOk func ins.passed_arguments ts h) in
    let taken = returns (take_return frame ins result) (take_return-IsOk frame ins result v t) in
    rw passed.1 (rw destroyed.1 (rw taken.1 tt))

-- what an outcome ensures that is no exception
pub Ensures-IsOk {ℓ κ} :
    {A : Type ℓ} (P : A → Type κ) (x : Result A) → IsOk x → Ensures P x → (a : A) × (x ≡ ok a) × P a
unfolding IsOk
Ensures-IsOk P (ok a) h (returned p) = (a, refl, p)
Ensures-IsOk P (raise e) h p = elim h [ ]
