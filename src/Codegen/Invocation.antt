-- ===== src/Codegen/Invocation.antt =====
-- The code of `invoke_function` in src/microjit/jit_x86_64.cpp for a call with numbers: the stack pointer, and
-- the addresses where the arguments go.
use mathlib.Core.Path.{subst}
use mathlib.Core.List.{append-nil, append_assoc, map}
use microjit.Prelude.{
  ℕ, ◌+◌, ◌-◌, ◌≤◌, ◌≡◌, refl, sym, ap, ◌∙◌, List, [], ◌∷◌, ◌++◌, Option, some, ltb, arith, All,
}
use microjit.Types.{CxxType, args_size, calculate_args_space, simple_16_bit_align}
use microjit.CallLayout.{move_arguments, moved}
use microjit.CallLayout.Disjoint.{calculate_args_space_lem, size-le-space}
use microjit.Raise.{Result, ok, raise, Ensures, returned, raised}
use microjit.Ir.{Invocation}
use microjit.Frame.{StackFrameInfo}
use microjit.Codegen.Asm.{rdi, rsi, rsp, r10, r11, imm, mov, add, sub, call, Code, r64}
use microjit.Codegen.Calls.{Compiled, aligned_args_space, invoke_function}
use microjit.Codegen.Places.{Event, called, ended, events, Hands, then-Hands}
use microjit.Codegen.Passable.{HasWidth, IsFound, IsTarget, invoke_function-IsOk, Ensures-IsOk}
use microjit.Codegen.Passing.{
  IsNumber, HasTypes, handed_at, floor, pass_values-Hands, destroy_values-Hands, IntoNumber,
  take_return-Hands,
}

-- the parts of the call, from the lowered stack pointer at `base` with `space` bytes above it
module _ (base caller : ℕ) (frame : StackFrameInfo) (func : Compiled) (ins : Invocation)
    (ts : List CxxType) where
  abbrev space : ℕ
  space = aligned_args_space ins

  abbrev full : ℕ
  full = base + space

  enter-Hands :
      (place : Option ℕ)
      → Hands full place [] base
          (some full)
          (mov (r64 r10) (r64 rsp) ∷ sub (r64 rsp) (imm space) ∷ [])
  unfolding Hands events
  enter-Hands place rest = ap (λ s. events s (some full) rest) (omega arith)

  call-Hands :
      (place : Option ℕ)
      → Hands base place (called caller base ∷ []) full (some full) (
          mov (r64 rdi) (imm ins.target_trampoline)
          ∷ mov (r64 rsi) (r64 rsp)
          ∷ call caller
          ∷ mov (r64 r11) (r64 rsp)
          ∷ add (r64 rsp) (imm space)
          ∷ mov (r64 r10) (r64 rsp)
          ∷ [])
  unfolding Hands events
  call-Hands place rest = refl

  invoke_function-Hands :
      (place : Option ℕ)
      → HasTypes func ins.passed_arguments ts
      → All IsNumber ts
      → IsNumber ins.target_return_type
      → IntoNumber ins.return_variable
      → Ensures
          (Hands full place
            (map handed_at (move_arguments full ts) ++ called caller base ∷ [])
            full
            (some (floor full ts)))
          (invoke_function caller frame func ins)
  unfolding invoke_function
  invoke_function-Hands place h p r v =
      let low = some (floor full ts) in
      let out = map handed_at (move_arguments full ts) in
      then-Hands full base full place (some full) low [] (out ++ called caller base ∷ []) _ _
        (returned (enter-Hands place))
        (then-Hands base base full (some full) low low out (called caller base ∷ []) _ _
          (pass_values-Hands base full frame func ins.passed_arguments ts h p)
          (then-Hands base full full low (some full) low (called caller base ∷ []) [] _ _
            (returned (call-Hands low))
            (then-Hands full full full (some full) low low [] [] _ _
              (destroy_values-Hands full full func ins.passed_arguments ts h p)
              (take_return-Hands full low frame ins (ltb 0 ins.target_return_type.size) r v))))

events-Hands :
    (s t : ℕ) (p q : Option ℕ) (out : List Event) (r : Result Code)
    → Ensures (Hands s p out t q) r
    → Ensures (λ code. events s p code ≡ out ++ ended t ∷ []) r
unfolding Hands events
events-Hands s t p q out (ok code) (returned h) =
    returned (ap (events s p) (sym (append-nil code)) ∙ h [])
events-Hands s t p q out (raise e) h = raised

-- the addresses in the block, and those in memory
move_arguments-handed :
    (base n : ℕ) (ts : List CxxType)
    → args_size ts ≤ n
    → map handed_at (move_arguments (base + n) ts)
      ≡ map (λ a. handed_at (base + a)) (move_arguments n ts)
unfolding args_size move_arguments
move_arguments-handed base n [] h = refl
move_arguments-handed base n (t ∷ ts) h =
    let here : base + n - t.size ≡ base + (n - t.size) = omega arith in
    rw here (
      ap (λ l. handed_at (base + (n - t.size)) ∷ l)
        (move_arguments-handed base (n - t.size) ts (omega arith)))

invoke_function-block :
    (base caller : ℕ) (place : Option ℕ) (frame : StackFrameInfo) (func : Compiled)
    (ins : Invocation) (ts : List CxxType)
    → HasTypes func ins.passed_arguments ts
    → All IsNumber ts
    → IsNumber ins.target_return_type
    → IntoNumber ins.return_variable
    → ins.arguments_total_size ≡ args_size ts
    → Ensures
        (λ code.
          events (base + aligned_args_space ins) place code
          ≡ map (λ a. handed_at (base + a)) (moved ins.target_return_type ts)
            ++ called caller base ∷ ended (base + aligned_args_space ins) ∷ [])
        (invoke_function caller frame func ins)
unfolding moved
invoke_function-block base caller place frame func ins ts h p r v e =
    let ret : CxxType = ins.target_return_type in
    let room : aligned_args_space ins ≡ calculate_args_space ret ts =
      ap (λ n. simple_16_bit_align (ret.size + n)) e ∙ sym (calculate_args_space_lem ret ts) in
    let full : ℕ = base + aligned_args_space ins in
    let block : map handed_at (move_arguments full ts)
        ≡ map (λ a. handed_at (base + a)) (move_arguments (calculate_args_space ret ts) ts) =
      ap (λ n. map handed_at (move_arguments (base + n) ts)) room
      ∙ move_arguments-handed base (calculate_args_space ret ts) ts
          (omega (arith, size-le-space ret ts)) in
    let same : (map handed_at (move_arguments full ts) ++ called caller base ∷ [])
          ++ ended full ∷ []
        ≡ map (λ a. handed_at (base + a)) (move_arguments (calculate_args_space ret ts) ts)
          ++ called caller base ∷ ended full ∷ [] =
      append_assoc (map handed_at (move_arguments full ts)) (called caller base ∷ [])
        (ended full ∷ [])
      ∙ ap (λ l. l ++ called caller base ∷ ended full ∷ []) block in
    subst
      (λ out.
        Ensures (λ code. events full place code ≡ out) (invoke_function caller frame func ins))
      same
      (events-Hands full full place _ _ _
        (invoke_function-Hands base caller frame func ins ts place h p r v))

-- For a call with numbers of 1, 2, 4 or 8 bytes as arguments and a number as its result, with the size of the
-- arguments that their types have, where the variables that it reads and writes are in the frame, the emitter
-- returns code. The code hands on from `r10`, for each argument in turn, the address where a call from outside
-- writes it in a block that starts at the lowered stack pointer. It then calls the caller of the trampoline with
-- the stack pointer at the start of that block, calls nothing else, and leaves the stack pointer where it was.
pub invoke_function-moved :
    (base caller : ℕ) (place : Option ℕ) (frame : StackFrameInfo) (func : Compiled)
    (ins : Invocation) (ts : List CxxType)
    → HasTypes func ins.passed_arguments ts
    → All (IsFound frame func) ins.passed_arguments
    → All IsNumber ts
    → All HasWidth ts
    → IsNumber ins.target_return_type
    → IntoNumber ins.return_variable
    → IsTarget frame ins.return_variable
    → ins.arguments_total_size ≡ args_size ts
    → (code : Code) × (invoke_function caller frame func ins ≡ ok code)
      × (events (base + aligned_args_space ins) place code
          ≡ map (λ a. handed_at (base + a)) (moved ins.target_return_type ts)
            ++ called caller base ∷ ended (base + aligned_args_space ins) ∷ [])
invoke_function-moved base caller place frame func ins ts h f p w r v t e =
    Ensures-IsOk _ (invoke_function caller frame func ins)
      (invoke_function-IsOk caller frame func ins ts h f p w v t)
      (invoke_function-block base caller place frame func ins ts h p r v e)
