-- ===== src/Codegen/Passing.antt =====
-- The parts of `invoke_function` in src/microjit/jit_x86_64.cpp, where arguments and result are numbers: the
-- addresses that they hand on from `r10`.
use mathlib.Core.Path.{subst}
use mathlib.Core.List.{map}
use microjit.Prelude.{
  ℕ, ◌+◌, ◌-◌, ◌≡◌, refl, Bool, true, false, List, [], ◌∷◌, Option, none, some, All,
}
use microjit.Types.{CxxType}
use microjit.CallLayout.{move_arguments}
use microjit.Raise.{Result, ok, Ensures, returned, raised, Ensures-any}
use microjit.Ir.{Variable, Value, immediate, argument, variable, expression, Invocation}
use microjit.Frame.{StackFrameInfo}
use microjit.Codegen.Asm.{rb, rc, rdi, r10, r11, imm, mov, lea, add, sub, Code, r64, in_frame}
use microjit.Codegen.Copies.{offset_of, copy_immediate_primitive}
use microjit.Codegen.Calls.{
  Compiled, argument_offset, pass_value, pass_values, passed_type, destroy_values, copy_return,
  take_return,
}
use microjit.Codegen.Places.{
  Event, handed, events, Hands, then-Hands, var_copy-Hands, copy_immediate_primitive-Hands,
}

abbrev pub IsNumber : CxxType → Type 0
IsNumber t = t.is_primitive ≡ true

-- the types of the values that are passed
unfoldable pub HasTypes : Compiled → List Value → List CxxType → Type 0
HasTypes func [] [] = Unit
HasTypes func (x ∷ xs) (t ∷ ts) = (passed_type func x ≡ ok t) × HasTypes func xs ts
HasTypes func [] (t ∷ ts) = ⊥
HasTypes func (x ∷ xs) [] = ⊥

abbrev pub handed_at : ℕ → Event
handed_at n = handed (some n)

-- code that hands on one address, below `n`
abbrev HandsOne : (s n : ℕ) → CxxType → Result Code → Type 0
HandsOne s n t = Ensures (Hands s (some n) (handed_at (n - t.size) ∷ []) s (some (n - t.size)))

pass_value-HandsOne :
    (s n : ℕ) (frame : StackFrameInfo) (func : Compiled) (x : Value) (t : CxxType)
    → passed_type func x ≡ ok t
    → IsNumber t
    → HandsOne s n t (pass_value frame func x)
unfolding passed_type pass_value Hands events copy_immediate_primitive
pass_value-HandsOne s n frame func (immediate value u) t h p =
    let same : u ≡ t = cc in
    subst (λ t. IsNumber t → HandsOne s n t (pass_value frame func (immediate value u))) same
      (λ q. rw q (
        then-Hands s s s (some n) (some (n - u.size)) (some (n - u.size))
          (handed_at (n - u.size) ∷ []) []
          (ok (sub (r64 r10) (imm u.size) ∷ mov (r64 rdi) (r64 r10) ∷ [])) _ (returned λ rest. refl)
          (copy_immediate_primitive-Hands s value (some (n - u.size)) u)))
      p
pass_value-HandsOne s n frame func (argument idx) t h p = rw h (
    Ensures-any (argument_offset func idx) λ offset. rw p (
      then-Hands s s s (some n) (some (n - t.size)) (some (n - t.size))
        (handed_at (n - t.size) ∷ []) []
        (ok (
          sub (r64 r10) (imm t.size)
          ∷ mov (r64 rb) (r64 r10)
          ∷ mov (r64 rc) (r64 r11)
          ∷ add (r64 rc) (imm (offset + func.return_type.size))
          ∷ []))
        _ (returned λ rest. refl) (var_copy-Hands s t.size t.copy_constructor (some (n - t.size)))))
pass_value-HandsOne s n frame func (variable v) t h p =
    let same : v.type_of ≡ t = cc in
    subst (λ t. IsNumber t → HandsOne s n t (pass_value frame func (variable v))) same
      (λ q. Ensures-any (offset_of frame v) λ offset. rw q (
        then-Hands s s s (some n) (some (n - v.type_of.size)) (some (n - v.type_of.size))
          (handed_at (n - v.type_of.size) ∷ []) []
          (ok (
            sub (r64 r10) (imm v.type_of.size)
            ∷ mov (r64 rb) (r64 r10)
            ∷ lea (r64 rc) (in_frame offset)
            ∷ []))
          _ (returned λ rest. refl)
          (var_copy-Hands s v.type_of.size v.type_of.copy_constructor (some (n - v.type_of.size)))))
      p
pass_value-HandsOne s n frame func (expression _ _ _ _) t h p = raised

-- where `r10` is after arguments of these types
unfoldable pub floor : ℕ → List CxxType → ℕ
floor n [] = n
floor n (t ∷ ts) = floor (n - t.size) ts

pub pass_values-Hands :
    (s n : ℕ) (frame : StackFrameInfo) (func : Compiled) (xs : List Value) (ts : List CxxType)
    → HasTypes func xs ts
    → All IsNumber ts
    → Ensures
        (Hands s (some n) (map handed_at (move_arguments n ts)) s (some (floor n ts)))
        (pass_values frame func xs)
unfolding HasTypes pass_values move_arguments floor Hands
pass_values-Hands s n frame func [] [] h p = returned λ rest. refl
pass_values-Hands s n frame func [] (t ∷ ts) h p = elim h [ ]
pass_values-Hands s n frame func (x ∷ xs) [] h p = elim h [ ]
pass_values-Hands s n frame func (x ∷ xs) (t ∷ ts) h p =
    then-Hands s s s (some n) (some (n - t.size)) (some (floor (n - t.size) ts))
      (handed_at (n - t.size) ∷ []) (map handed_at (move_arguments (n - t.size) ts)) _ _
      (pass_value-HandsOne s n frame func x t h.0 p.0)
      (pass_values-Hands s (n - t.size) frame func xs ts h.1 p.1)

pub destroy_values-Hands :
    (s n : ℕ) (func : Compiled) (xs : List Value) (ts : List CxxType)
    → HasTypes func xs ts
    → All IsNumber ts
    → Ensures (Hands s (some n) [] s (some (floor n ts))) (destroy_values func xs)
unfolding HasTypes destroy_values floor Hands events
destroy_values-Hands s n func [] [] h p = returned λ rest. refl
destroy_values-Hands s n func [] (t ∷ ts) h p = elim h [ ]
destroy_values-Hands s n func (x ∷ xs) [] h p = elim h [ ]
destroy_values-Hands s n func (x ∷ xs) (t ∷ ts) h p =
    then-Hands s s s (some n) (some (n - t.size)) (some (floor (n - t.size) ts)) [] [] _ _
      (rw h.0 (rw p.0 (returned λ rest. refl)))
      (destroy_values-Hands s (n - t.size) func xs ts h.1 p.1)

-- the result goes to no variable, or to one of a primitive type
unfoldable pub IntoNumber : Option Variable → Type 0
IntoNumber none = Unit
IntoNumber (some v) = IsNumber v.type_of

copy_return-Hands :
    (s : ℕ) (p : Option ℕ) (frame : StackFrameInfo) (v : Option Variable)
    → IntoNumber v
    → Ensures (Hands s p [] s p) (copy_return frame v)
unfolding IntoNumber copy_return Hands events
copy_return-Hands s p frame none h = returned λ rest. refl
copy_return-Hands s p frame (some v) h = Ensures-any (offset_of frame v) λ offset. rw h (
    then-Hands s s s p p p [] [] (ok (lea (r64 rb) (in_frame offset) ∷ mov (r64 rc) (r64 r11) ∷ []))
      _ (returned λ rest. refl) (var_copy-Hands s v.type_of.size v.type_of.copy_constructor p))

pub take_return-Hands :
    (s : ℕ) (p : Option ℕ) (frame : StackFrameInfo) (ins : Invocation) (t : Bool)
    → IsNumber ins.target_return_type
    → IntoNumber ins.return_variable
    → Ensures (Hands s p [] s p) (take_return frame ins t)
unfolding take_return Hands
take_return-Hands s p frame ins false h g = returned λ rest. refl
take_return-Hands s p frame ins true h g =
    then-Hands s s s p p p [] [] _ _ (copy_return-Hands s p frame ins.return_variable g)
      (rw h (returned λ rest. refl))
