-- ===== src/Codegen/Places.antt =====
-- What the code of a call in src/microjit/jit_x86_64.cpp does with the stack pointer and with `r10`, which runs
-- over the arguments.
use mathlib.Core.List.{append_assoc}
use microjit.Prelude.{
  ℕ, ◌+◌, ◌-◌, ◌≡◌, refl, sym, ap, ◌∙◌, true, List, [], ◌∷◌, ◌++◌, Option, none, some,
}
use microjit.Types.{CxxType}
use microjit.Raise.{
  Result, ok, raise, Ensures, returned, raised, Ensures-or_raise, unsupported_size,
}
use microjit.Codegen.Asm.{
  Width, rsp, r10, reg, imm, mov, lea, add, sub, call, push, pop, Code, width_of, by_width, ◌>+>◌,
}
use microjit.Codegen.Copies.{var_copy, copy_immediate_primitive}

-- An address that is handed on from `r10`, or `none` if `r10` is lost; a call, with the stack pointer at it;
-- and the stack pointer at the end.
pub data Event : Type 0 where
  handed : Option ℕ → Event
  called : (target stack : ℕ) → Event
  ended : (stack : ℕ) → Event

abbrev pub lower : ℕ → Option ℕ → Option ℕ
lower k none = none
lower k (some n) = some (n - k)

-- The events of code without jumps, from the values of `rsp` and `r10`. A call gives the stack pointer back, and
-- loses `r10`, as every write that is not followed here does.
unfoldable pub events : (stack : ℕ) (place : Option ℕ) → Code → List Event
events s p [] = ended s ∷ []
events s p (mov (reg _ r10) (reg _ rsp) ∷ is) = events s (some s) is
events s p (mov (reg _ r10) _ ∷ is) = events s none is
events s p (mov (reg _ g) (reg _ r10) ∷ is) = handed p ∷ events s p is
events s p (lea (reg _ r10) _ ∷ is) = events s none is
events s p (sub (reg _ r10) (imm k) ∷ is) = events s (lower k p) is
events s p (sub (reg _ rsp) (imm k) ∷ is) = events (s - k) p is
events s p (add (reg _ rsp) (imm k) ∷ is) = events (s + k) p is
events s p (push _ ∷ is) = events (s - 8) p is
events s p (pop _ ∷ is) = events (s + 8) p is
events s p (call target ∷ is) = called target s ∷ events s none is
events s p (i ∷ is) = events s p is

-- the code has these events, and leaves `rsp` at `t` and `r10` at `q`
unfoldable pub Hands : (s : ℕ) (p : Option ℕ) → List Event → (t : ℕ) (q : Option ℕ) → Code → Type 0
Hands s p out t q code = (rest : Code) → events s p (code ++ rest) ≡ out ++ events t q rest

Hands-append :
    (s t u : ℕ) (p q r : Option ℕ) (out next : List Event) (xs ys : Code)
    → Hands s p out t q xs
    → Hands t q next u r ys
    → Hands s p (out ++ next) u r (xs ++ ys)
unfolding Hands
Hands-append s t u p q r out next xs ys h g rest =
    ap (events s p) (append_assoc xs ys rest)
    ∙ h (ys ++ rest)
    ∙ ap (λ l. out ++ l) (g rest)
    ∙ sym (append_assoc out next (events u r rest))

pub then-Hands :
    (s t u : ℕ) (p q r : Option ℕ) (out next : List Event) (x y : Result Code)
    → Ensures (Hands s p out t q) x
    → Ensures (Hands t q next u r) y
    → Ensures (Hands s p (out ++ next) u r) (x >+> y)
then-Hands s t u p q r out next (ok xs) (ok ys) (returned h) (returned g) =
    returned (Hands-append s t u p q r out next xs ys h g)
then-Hands s t u p q r out next (raise e) y h g = raised
then-Hands s t u p q r out next (ok xs) (raise e) h g = raised

by_width-Hands :
    (s size : ℕ) (p : Option ℕ) (code : Width → Code)
    → ((w : Width) → Hands s p [] s p (code w))
    → Ensures (Hands s p [] s p) (by_width size code)
by_width-Hands s size p code h =
    Ensures-or_raise (width_of size) unsupported_size λ w _. returned (h w)

pub var_copy-Hands :
    (s size copy : ℕ) (p : Option ℕ) → Ensures (Hands s p [] s p) (var_copy size true copy)
unfolding var_copy Hands events
var_copy-Hands s size copy p = by_width-Hands s size p _ λ w rest. refl

pub copy_immediate_primitive-Hands :
    (s value : ℕ) (p : Option ℕ) (t : CxxType)
    → Ensures (Hands s p [] s p) (copy_immediate_primitive value t)
unfolding copy_immediate_primitive Hands events
copy_immediate_primitive-Hands s value p t = by_width-Hands s t.size p _ λ w rest. refl
