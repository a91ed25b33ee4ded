-- ===== src/Codegen/Immediates.antt =====
-- The immediate that `copy_immediate_internal` of src/microjit/jit_x86_64.cpp puts on the stack.
use microjit.Prelude.{
  ℕ, zero, suc, ◌+◌, ◌*◌, ◌/◌, ◌%◌, ◌^◌, ◌<◌, ◌≡◌, refl, sym, ap, ◌∙◌, some, arith,
}
use native.Mathlib.Nat.{div-div-eq-div-mul, two-pow-succ, mod-eq_of_lt}
use microjit.Prelude.Int.{pos}
use microjit.Codegen.Asm.{byte, rsp, low}
use microjit.Codegen.Copies.{nth_byte, copy_bytes}
use microjit.Codegen.Machine.{State, load, store, address, run, step}
use microjit.Codegen.Words.{bound, bound-positive, mod-bound}

-- the number that the bytes from `seek` on make
abbrev from_byte : (value seek : ℕ) → ℕ
from_byte value seek = value / 2 ^ (8 * seek)

-- eight doublings
pow-byte : (n : ℕ) → 2 ^ (n + 8) ≡ 2 ^ n * 256
pow-byte n =
    let one = two-pow-succ n in
    let two = two-pow-succ (suc n) in
    let three = two-pow-succ (suc (suc n)) in
    let four = two-pow-succ (suc (suc (suc n))) in
    let m : ℕ = suc (suc (suc (suc n))) in
    let five = two-pow-succ m in
    let six = two-pow-succ (suc m) in
    let seven = two-pow-succ (suc (suc m)) in
    let eight = two-pow-succ (suc (suc (suc m))) in
    let exponent : n + 8 ≡ suc (suc (suc (suc m))) = omega arith in
    ap (λ k. 2 ^ k) exponent ∙ omega arith

from_byte-next : (value seek : ℕ) → from_byte value seek / 256 ≡ from_byte value (seek + 1)
from_byte-next value seek =
    let exponent : 8 * (seek + 1) ≡ 8 * seek + 8 = omega arith in
    div-div-eq-div-mul value (2 ^ (8 * seek)) 256
    ∙ ap (λ n. value / n) (sym (ap (λ n. 2 ^ n) exponent ∙ pow-byte (8 * seek)))

-- after the bytes from `seek` on, `count` in number, are written above the stack pointer
record Written (s : State) (value seek count : ℕ) (t : State) : Type 0 where
  pub registers_same : t.registers ≡ s.registers
  pub below_same : (b : ℕ) → b < s.registers rsp + seek → t.memory b ≡ s.memory b
  pub written : load count t.memory (s.registers rsp + seek) ≡ from_byte value seek % bound count

load-nothing : (m : ℕ → ℕ) (a v : ℕ) → load 0 m a ≡ v % bound 0
unfolding load bound
load-nothing m a v = omega arith

address-rsp : (a seek : ℕ) → a + seek < 2 ^ 64 → address a (pos seek) ≡ a + seek
unfolding address
address-rsp a seek h = mod-eq_of_lt h

-- one byte, and then the others
Written-next :
    (value seek count : ℕ) (s t : State)
    → address (s.registers rsp) (pos seek) ≡ s.registers rsp + seek
    → Written
        (record s {
          memory =
              store 1 s.memory
                (address (s.registers rsp) (pos seek))
                (low byte (nth_byte value seek));
        })
        value
        (seek + 1)
        count
        t
    → Written s value seek (suc count) t
unfolding load store bound
Written-next value seek count s t place w =
    let other = w.below_same in
    let first : t.memory (s.registers rsp + seek) ≡ value / 2 ^ (8 * seek) % 256 =
      other (s.registers rsp + seek) (omega arith) ∙ ground arith in
    let next_place : s.registers rsp + seek + 1 ≡ s.registers rsp + (seek + 1) = omega arith in
    let shifted = from_byte-next value seek in
    let split = mod-bound (from_byte value seek) (bound count) (bound-positive count) in
    let whole : value / 2 ^ (8 * seek) % 256 % 256
          + 256 * (from_byte value (seek + 1) % bound count)
        ≡ from_byte value seek % (256 * bound count) =
      rw split (rw shifted (omega arith)) in
    record {
      registers_same = w.registers_same;
      below_same = λ b g. other b (omega arith) ∙ ground arith;
      written =
          ap (λ v. v % 256 + 256 * load count t.memory (s.registers rsp + seek + 1)) first
          ∙ ap (λ a. value / 2 ^ (8 * seek) % 256 % 256 + 256 * load count t.memory a) next_place
          ∙ ap (λ v. value / 2 ^ (8 * seek) % 256 % 256 + 256 * v) w.written
          ∙ whole;
    }

copy_bytes-Written :
    (value seek count : ℕ) (s : State)
    → s.registers rsp + seek + count < 2 ^ 64
    → (t : State) × (run (copy_bytes value seek count) s ≡ some t) × Written s value seek count t
unfolding copy_bytes run step
copy_bytes-Written value seek zero s h = (
  s,
  refl,
  record {
    registers_same = refl;
    below_same = λ b g. refl;
    written = load-nothing s.memory (s.registers rsp + seek) (from_byte value seek);
  },
)
copy_bytes-Written value seek (suc count) s h =
    let place = address-rsp (s.registers rsp) seek (omega arith) in
    let next : State = record s {
      memory =
          store 1 s.memory (address (s.registers rsp) (pos seek)) (low byte (nth_byte value seek));
    } in
    let rest = copy_bytes-Written value (seek + 1) count next (omega arith) in
    (rest.0, rest.1, Written-next value seek count s rest.0 place rest.2)

-- The bytes of an immediate of any size, written one by one above the stack pointer, read back as the
-- immediate, as far as the size reaches; nothing below the stack pointer changes.
pub copy_bytes-load :
    (value size : ℕ) (s : State)
    → s.registers rsp + size < 2 ^ 64
    → (t : State) × (run (copy_bytes value 0 size) s ≡ some t)
      × (load size t.memory (s.registers rsp) ≡ value % bound size)
      × ((b : ℕ) → b < s.registers rsp → t.memory b ≡ s.memory b)
copy_bytes-load value size s h =
    let all = copy_bytes-Written value 0 size s (omega arith) in
    let place : s.registers rsp + 0 ≡ s.registers rsp = omega arith in
    let whole : from_byte value 0 ≡ value = omega arith in
    let other = all.2.below_same in
    (
      all.0,
      all.1,
      ap (λ a. load size all.0.memory a) (sym place)
          ∙ all.2.written
          ∙ ap (λ v. v % bound size) whole,
      λ b g. other b (omega arith),
    )
