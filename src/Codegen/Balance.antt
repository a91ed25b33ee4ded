-- ===== src/Codegen/Balance.antt =====
-- How far the stack pointer is below the place where the prologue leaves it.
use microjit.Prelude.{
  ℕ, ◌+◌, ◌-◌, ◌≡◌, refl, ◌∙◌, Bool, true, false, [], ◌∷◌, ◌++◌, Option, none, some, leb, ◌==◌,
  if◌then◌else◌,
}
use microjit.Raise.{
  Result, ok, raise, Ensures, returned, raised, Ensures-or_raise, unsupported_size,
}
use microjit.Codegen.Asm.{
  Width, Precision, Gp, rsp, Operand, reg, imm, Asm, mov, lea, add, sub, imul, xor_, cmovne, push,
  pop, set_cc, jmp, je, jne, bind, leave, ret, Code, width_of, by_width, ◌>+>◌,
}
use microjit.Codegen.Operations.{precision_of, by_precision}

abbrev pub is_stack_pointer : Gp → Bool
is_stack_pointer rsp = true
is_stack_pointer _ = false

abbrev is_rsp : Operand → Bool
is_rsp (reg w g) = is_stack_pointer g
is_rsp _ = false

-- the bytes below the start after a constant is subtracted or added; nothing goes above the start
abbrev grow : Operand → ℕ → Option ℕ
grow (imm k) n = some (n + k)
grow _ n = none

abbrev pub shrink_by : ℕ → ℕ → Option ℕ
shrink_by k n = if leb k n then some (n - k) else none

abbrev shrink : Operand → ℕ → Option ℕ
shrink (imm k) n = shrink_by k n
shrink _ n = none

-- any other write to the stack pointer
abbrev unless_rsp : Operand → ℕ → Option ℕ
unless_rsp d n = if is_rsp d then none else some n

-- at a jump and at a label nothing may be below the start
abbrev at_start : ℕ → Option ℕ
at_start n = if n == 0 then some 0 else none

-- One instruction, with `n` bytes below the start: `none` where the depth gets lost. A function that
-- is called leaves the stack pointer where it was.
unfoldable pub effect : Asm → ℕ → Option ℕ
effect (push s) n = some (n + 8)
effect (pop d) n = if is_rsp d then none else shrink_by 8 n
effect (sub d s) n = if is_rsp d then grow s n else some n
effect (add d s) n = if is_rsp d then shrink s n else some n
effect (mov d s) n = unless_rsp d n
effect (lea d s) n = unless_rsp d n
effect (imul d s) n = unless_rsp d n
effect (xor_ d s) n = unless_rsp d n
effect (cmovne d s) n = unless_rsp d n
effect (set_cc c d) n = unless_rsp d n
effect (jmp l) n = at_start n
effect (je l) n = at_start n
effect (jne l) n = at_start n
effect (bind l) n = at_start n
effect leave n = none
effect ret n = none
effect _ n = some n

unfoldable pub depth_after : ℕ → Code → Option ℕ
depth_after n [] = some n
depth_after n (i ∷ is) = elim (effect i n) [ none ↦ none | some m ↦ depth_after m is ]

-- The code gives back what it takes from the stack, and wherever it jumps or can be jumped to,
-- it has nothing on it.
abbrev pub Neutral : Code → Type 0
Neutral code = depth_after 0 code ≡ some 0

-- both sides of the lemma below after the first instruction
continue_append :
    (is ys : Code) (m : ℕ) (r : Option ℕ)
    → ((k : ℕ) → depth_after k is ≡ some m → depth_after k (is ++ ys) ≡ depth_after m ys)
    → (elim r [ none ↦ none | some k ↦ depth_after k is ]) ≡ some m
    → (elim r [ none ↦ none | some k ↦ depth_after k (is ++ ys) ]) ≡ depth_after m ys
continue_append is ys m none rest h = cc
continue_append is ys m (some k) rest h = rest k h

pub depth_after-append :
    (xs ys : Code) (n m : ℕ)
    → depth_after n xs ≡ some m
    → depth_after n (xs ++ ys) ≡ depth_after m ys
unfolding depth_after
depth_after-append [] ys n m e = let same : n ≡ m = cc in rw same refl
depth_after-append (i ∷ is) ys n m e =
    continue_append is ys m (effect i n) (λ k. depth_after-append is ys k m) e

-- code without jumps and labels, which does so wherever it starts
abbrev pub Level : Code → Type 0
Level code = (n : ℕ) → depth_after n code ≡ some n

pub Level-append : (xs ys : Code) → Level xs → Level ys → Level (xs ++ ys)
Level-append xs ys h k n = depth_after-append xs ys n n (h n) ∙ k n

pub Neutral-append : (xs ys : Code) → Neutral xs → Neutral ys → Neutral (xs ++ ys)
Neutral-append xs ys h k = depth_after-append xs ys 0 0 h ∙ k

-- rules for what the emitters return
pub Ensures-then : (m k : Result Code) → Ensures Level m → Ensures Level k → Ensures Level (m >+> k)
Ensures-then (ok xs) (ok ys) (returned h) (returned g) = returned (Level-append xs ys h g)
Ensures-then (raise e) k h g = raised
Ensures-then (ok xs) (raise e) h g = raised

pub Ensures-by_width :
    (size : ℕ) (code : Width → Code)
    → ((w : Width) → Level (code w))
    → Ensures Level (by_width size code)
Ensures-by_width size code h =
    Ensures-or_raise (width_of size) unsupported_size λ w _. returned (h w)

pub Ensures-by_precision :
    (size : ℕ) (code : Precision → Code)
    → ((p : Precision) → Level (code p))
    → Ensures Level (by_precision size code)
Ensures-by_precision size code h =
    Ensures-or_raise (precision_of size) unsupported_size λ p _. returned (h p)

pub Ensures-Neutral : (m : Result Code) → Ensures Level m → Ensures Neutral m
Ensures-Neutral (ok xs) (returned h) = returned (h 0)
Ensures-Neutral (raise e) h = raised

pub then-Neutral :
    (m k : Result Code) → Ensures Neutral m → Ensures Neutral k → Ensures Neutral (m >+> k)
then-Neutral (ok xs) (ok ys) (returned h) (returned g) = returned (Neutral-append xs ys h g)
then-Neutral (raise e) k h g = raised
then-Neutral (ok xs) (raise e) h g = raised
