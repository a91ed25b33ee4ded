-- ===== src/Codegen/Execution.antt =====
-- Running the parts of an assignment of integers: the operands in their registers, the division, and the
-- write to the target.
use microjit.Prelude.{
  ℕ, ◌*◌, ◌/◌, ◌%◌, ◌^◌, ◌≤◌, ◌<◌, ◌≡◌, refl, ap, ◌∙◌, [], ◌∷◌, Option, none, some, arith,
}
use native.Mathlib.Nat.{div-le_self, mod-eq_of_lt}
use microjit.Prelude.Int.{ℤ, pos}
use microjit.Codegen.Asm.{
  Width, byte, word, dword, qword, ra, rb, rc, rd, rbp, r10, reg, mov, div, xor_, Code, r64, at_reg,
  bytes, low,
}
use microjit.Codegen.Machine.{
  State, load, store, merge, address, at, get, put, put_quotient, forget_flags, dividend, divide,
  step, run,
}
use microjit.Codegen.Words.{low-merge, low-load, merge-address, address-zero}
use microjit.Codegen.Arithmetic.{IsWide}

-- the value of a variable, and the memory when the code has run
abbrev pub value_at : Width → ℤ → State → ℕ
value_at w offset s = load (bytes w) s.memory (at rbp offset s)

abbrev pub memory_after : Code → State → Option (ℕ → ℕ)
memory_after code s = elim (run code s) [ none ↦ none | some r ↦ some r.memory ]

-- an address that `lea` has put into a register
pub place-address :
    (old b : ℕ) (d : ℤ) → address (merge qword old (address b d)) (pos 0) ≡ address b d
place-address old b d = rw merge-address (address-zero b d)

-- an operand in its register is the value of its variable
pub get-load :
    (w : Width) (m : ℕ → ℕ) (old before b : ℕ) (d : ℤ)
    → low w (merge w old (load (bytes w) m (address (merge qword before (address b d)) (pos 0))))
      ≡ load (bytes w) m (address b d)
get-load w m old before b d =
    low-merge w old _
    ∙ ap (λ a. low w (load (bytes w) m a)) (place-address before b d)
    ∙ low-load w m (address b d)

-- what is saved, when it is calculated of the two operands
pub saved :
    (w : Width) (m : ℕ → ℕ) (old before b : ℕ) (d : ℤ) (f : ℕ → ℕ → ℕ) {u v left right : ℕ}
    → u ≡ left
    → v ≡ right
    → some (
        store
          (bytes w)
          m
          (address (merge qword before (address b d)) (pos 0))
          (low w (merge w old (f u v))))
      ≡ some (store (bytes w) m (address b d) (low w (f left right)))
saved w m old before b d f h g =
    rw (place-address before b d) (rw (low-merge w old _) (rw h (rw g refl)))

dividend-cleared : (w : Width) (s : State) → IsWide w → dividend w (put qword rd 0 s) ≡ get w ra s
unfolding merge
dividend-cleared byte s h = elim h [ ]
dividend-cleared word s h = omega arith
dividend-cleared dword s h = omega arith
dividend-cleared qword s h = omega arith

-- a quotient that fits
pub divide-fits :
    (w : Width) (b : ℕ) (s : State)
    → 0 < b
    → dividend w s / b < 2 ^ (8 * bytes w)
    → divide w b s ≡ some (put_quotient w (dividend w s / b) (dividend w s % b) (forget_flags s))
divide-fits w b s h g = ground arith

-- what is stored after a division
pub quotient-saved :
    (w : Width) (q r : ℕ) (s : State)
    → IsWide w
    → memory_after (mov (at_reg w rc) (reg w ra) ∷ []) (put_quotient w q r s)
      ≡ some (store (bytes w) s.memory (at rc (pos 0) s) (low w q))
unfolding run step
quotient-saved byte q r s h = elim h [ ]
quotient-saved word q r s h =
    ap (λ v. some (store 2 s.memory (at rc (pos 0) s) v)) (low-merge word _ q)
quotient-saved dword q r s h =
    ap (λ v. some (store 4 s.memory (at rc (pos 0) s) v)) (low-merge dword _ q)
quotient-saved qword q r s h =
    ap (λ v. some (store 8 s.memory (at rc (pos 0) s) v)) (low-merge qword _ q)

-- a register that is copied as a whole
low-copy :
    (w : Width) (old older r : ℕ)
    → IsWide w
    → low w (merge qword old (low qword (merge w older r))) ≡ low w r
unfolding merge
low-copy byte old older r h = elim h [ ]
low-copy word old older r h = omega arith
low-copy dword old older r h = omega arith
low-copy qword old older r h = omega arith

pub remainder-saved :
    (w : Width) (q r : ℕ) (s : State)
    → IsWide w
    → memory_after
        (mov (r64 ra) (r64 rd) ∷ mov (at_reg w rc) (reg w ra) ∷ [])
        (put_quotient w q r s)
      ≡ some (store (bytes w) s.memory (at rc (pos 0) s) (low w r))
unfolding run step
remainder-saved byte q r s h = elim h [ ]
remainder-saved word q r s h =
    ap (λ v. some (store 2 s.memory (at rc (pos 0) s) v)) (low-copy word _ _ r h)
remainder-saved dword q r s h =
    ap (λ v. some (store 4 s.memory (at rc (pos 0) s) v)) (low-copy dword _ _ r h)
remainder-saved qword q r s h =
    ap (λ v. some (store 8 s.memory (at rc (pos 0) s) v)) (low-copy qword _ _ r h)

pub low-bound : (w : Width) (n : ℕ) → low w n < 2 ^ (8 * bytes w)
low-bound byte n = omega arith
low-bound word n = omega arith
low-bound dword n = omega arith
low-bound qword n = omega arith

quotient-bound : (w : Width) (n b : ℕ) → low w n / b < 2 ^ (8 * bytes w)
quotient-bound w n b =
    let least = div-le_self (low w n) b in let bound = low-bound w n in omega arith

abbrev pub resume : Code → Option State → Option State
resume rest t = elim t [ none ↦ none | some s ↦ run rest s ]

abbrev pub then_memory : Code → Option State → Option (ℕ → ℕ)
then_memory rest t = elim (resume rest t) [ none ↦ none | some s ↦ some s.memory ]

-- the division of what is in `a` by what is in `b`, and what comes after it
pub divided :
    (w : Width) (s : State) (rest : Code)
    → IsWide w
    → 0 < get w rb s
    → memory_after (xor_ (r64 rd) (r64 rd) ∷ div (reg w rb) ∷ rest) s
      ≡ memory_after rest (
          put_quotient w
            (get w ra s / get w rb s)
            (get w ra s % get w rb s)
            (put qword rd 0 (forget_flags s)))
unfolding run step
divided w s rest h g =
    let start : State = put qword rd 0 (forget_flags s) in
    let whole : dividend w start ≡ get w ra s = dividend-cleared w (forget_flags s) h in
    let fits : dividend w start / get w rb s < 2 ^ (8 * bytes w) =
      rw whole (quotient-bound w (s.registers ra) (get w rb s)) in
    ap (then_memory rest) (divide-fits w (get w rb s) start g fits)
    ∙ ap (λ d. memory_after rest (put_quotient w (d / get w rb s) (d % get w rb s) start)) whole

low-small : (w : Width) (n m : ℕ) → n ≤ low w m → low w n ≡ n
low-small w n m h = let bound = low-bound w m in mod-eq_of_lt (omega arith)

-- a value of the width of its variable is its own low part
pub value-low : (w : Width) (n : ℕ) (offset : ℤ) (s : State) → n ≤ value_at w offset s → low w n ≡ n
value-low w n offset s h =
    low-small w n (value_at w offset s) (rw (low-load w s.memory (at rbp offset s)) h)

-- the state in which a calculation starts
abbrev pub prepared : Width → (left right to : ℤ) → State → State
prepared w left right to s =
    let first = put qword r10 (at rbp left s) s in
    let second = put w ra (load (bytes w) first.memory (at r10 (pos 0) first)) first in
    let third = put qword r10 (at rbp right second) second in
    let fourth = put w rb (load (bytes w) third.memory (at r10 (pos 0) third)) third in
    put qword rc (at rbp to fourth) fourth

pub prepared_lem :
    (w : Width) (left right to : ℤ) (s : State)
    → (get w ra (prepared w left right to s) ≡ value_at w left s)
      × (get w rb (prepared w left right to s) ≡ value_at w right s)
      × (at rc (pos 0) (prepared w left right to s) ≡ at rbp to s)
prepared_lem w left right to s = (
  get-load w s.memory _ _ (s.registers rbp) left,
  get-load w s.memory _ _ (s.registers rbp) right,
  place-address _ (s.registers rbp) to,
)

pub value-bound : (w : Width) (offset : ℤ) (s : State) → value_at w offset s < 2 ^ (8 * bytes w)
value-bound w offset s =
    let same = low-load w s.memory (at rbp offset s) in
    let bound = low-bound w (value_at w offset s) in omega arith
