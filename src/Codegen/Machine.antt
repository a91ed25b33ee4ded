-- ===== src/Codegen/Machine.antt =====
-- What the instructions on integers do, as the manual of the processor describes them: registers of
-- 64 bits, memory of bytes with the least significant byte first, and four flags.
use microjit.Prelude.{
  ℕ, zero, suc, ◌+◌, ◌-◌, ◌*◌, ◌/◌, ◌%◌, ◌^◌, Bool, true, false, not, ◌&&◌, ◌||◌, [], ◌∷◌, Option,
  none, some, leb, ltb, ◌==◌, if◌then◌else◌,
}
use microjit.Prelude.Int.{ℤ, pos, negsuc}
use microjit.Codegen.Asm.{
  Width, byte, word, dword, qword, Gp, ra, rb, rc, rd, rdi, rsi, rbp, rsp, r10, r11, Operand, reg,
  mem, imm, xmm, Condition, cc_e, cc_ne, cc_g, cc_ge, cc_l, cc_le, cc_a, cc_nb, cc_b, cc_na, Asm,
  mov, lea, add, sub, imul, xor_, cmp, div, set_cc, Code, bytes, low,
}

-- zero, carry, sign and overflow
pub record Flags : Type 0 where
  pub zf : Bool
  pub cf : Bool
  pub sf : Bool
  pub of : Bool

pub record State : Type 0 where
  pub registers : Gp → ℕ
  pub memory : ℕ → ℕ
  pub flags : Option Flags

abbrev pub number : Gp → ℕ
number ra = 0
number rb = 1
number rc = 2
number rd = 3
number rdi = 4
number rsi = 5
number rbp = 6
number rsp = 7
number r10 = 8
number r11 = 9

-- `bytes` bytes at an address
unfoldable pub load : ℕ → (ℕ → ℕ) → ℕ → ℕ
load zero m a = 0
load (suc n) m a = m a % 256 + 256 * load n m (a + 1)

unfoldable pub store : ℕ → (ℕ → ℕ) → (address value : ℕ) → ℕ → ℕ
store zero m a v b = m b
store (suc n) m a v b = if b == a then v % 256 else store n m (a + 1) (v / 256) b

-- A write of 32 bits clears the upper half of a register; a write of 16 or 8 bits keeps the rest.
unfoldable pub merge : Width → (old value : ℕ) → ℕ
merge byte old v = old / 2 ^ 8 * 2 ^ 8 + low byte v
merge word old v = old / 2 ^ 16 * 2 ^ 16 + low word v
merge dword old v = low dword v
merge qword old v = low qword v

-- the address that a register and a displacement give
unfoldable pub address : ℕ → ℤ → ℕ
address b (pos k) = (b + k) % 2 ^ 64
address b (negsuc k) = (b + (2 ^ 64 - suc k % 2 ^ 64)) % 2 ^ 64

abbrev pub put : Width → Gp → ℕ → State → State
put w g v s = record s {
  registers = λ h. if number h == number g then merge w (s.registers g) v else s.registers h;
}

abbrev pub get : Width → Gp → State → ℕ
get w g s = low w (s.registers g)

abbrev pub at : Gp → ℤ → State → ℕ
at g d s = address (s.registers g) d

abbrev pub xor : Bool → Bool → Bool
xor true b = not b
xor false b = b

-- the flags after `a` is compared with `b`
abbrev pub sign_bit : Width → ℕ → Bool
sign_bit w n = leb (2 ^ (8 * bytes w - 1)) n

unfoldable pub compared : Width → (a b : ℕ) → Flags
compared w a b =
    let r = low w (a + (2 ^ (8 * bytes w) - b)) in
    record {
      zf = r == 0;
      cf = ltb a b;
      sf = sign_bit w r;
      of = xor (sign_bit w a) (sign_bit w b) && xor (sign_bit w r) (sign_bit w a);
    }

-- the conditions on integers
unfoldable pub holds : Condition → Flags → Option Bool
holds cc_e f = some f.zf
holds cc_ne f = some (not f.zf)
holds cc_b f = some f.cf
holds cc_nb f = some (not f.cf)
holds cc_na f = some (f.cf || f.zf)
holds cc_a f = some (not (f.cf || f.zf))
holds cc_l f = some (xor f.sf f.of)
holds cc_ge f = some (not (xor f.sf f.of))
holds cc_le f = some (xor f.sf f.of || f.zf)
holds cc_g f = some (not (xor f.sf f.of || f.zf))
holds _ f = none

-- the value of a source operand, and a write to a destination, with the width of the instruction
abbrev pub operand : Width → Operand → State → Option ℕ
operand w (reg _ g) s = some (get w g s)
operand w (mem _ g d) s = some (load (bytes w) s.memory (at g d s))
operand w (imm k) s = some (low w k)
operand w (xmm _) s = none

abbrev pub unless_none : Option ℕ → (ℕ → Option State) → Option State
unless_none none next = none
unless_none (some a) next = next a

abbrev pub forget_flags : State → State
forget_flags s = record s { flags = none }

-- a calculation on two registers; the flags it leaves are not used
abbrev pub calculate : Width → Gp → Gp → (ℕ → ℕ → ℕ) → State → State
calculate w g h f s = put w g (f (get w g s) (get w h s)) (forget_flags s)

-- `div`: the dividend is in `d` and `a` together, or in `ax`. It faults on a divisor of 0 and on a quotient
-- that does not fit.
abbrev pub dividend : Width → State → ℕ
dividend byte s = get word ra s
dividend w s = get w rd s * 2 ^ (8 * bytes w) + get w ra s

abbrev pub put_quotient : Width → (quotient remainder : ℕ) → State → State
put_quotient byte q r s = put word ra (r * 256 + q) s
put_quotient w q r s = put w rd r (put w ra q s)

abbrev pub divide : Width → (divisor : ℕ) → State → Option State
divide w b s =
    if b == 0 || leb (2 ^ (8 * bytes w)) (dividend w s / b)
    then none
    else some (put_quotient w (dividend w s / b) (dividend w s % b) (forget_flags s))

abbrev pub set_to : Option Bool → Gp → State → Option State
set_to none g s = none
set_to (some t) g s = some (put byte g (if t then 1 else 0) s)

-- One instruction. `none`: it faults, there is no such instruction, or it is not described here. There is no
-- `imul` of two registers of 8 bits.
unfoldable pub step : Asm → State → Option State
step (mov (reg w g) x) s = unless_none (operand w x s) λ v. some (put w g v s)
step (mov (mem w g d) (reg _ h)) s =
    some (record s { memory = store (bytes w) s.memory (at g d s) (get w h s) })
step (mov (mem w g d) (imm k)) s =
    some (record s { memory = store (bytes w) s.memory (at g d s) (low w k) })
step (lea (reg qword g) (mem _ h d)) s = some (put qword g (at h d s) s)
step (add (reg w g) (reg _ h)) s = some (calculate w g h (λ a b. a + b) s)
step (sub (reg w g) (reg _ h)) s = some (calculate w g h (λ a b. a + (2 ^ (8 * bytes w) - b)) s)
step (imul (reg byte g) (reg _ h)) s = none
step (imul (reg w g) (reg _ h)) s = some (calculate w g h (λ a b. a * b) s)
step (xor_ (reg qword rd) (reg qword rd)) s = some (put qword rd 0 (forget_flags s))
step (div (reg w g)) s = divide w (get w g s) s
step (cmp (reg w g) (reg _ h)) s =
    some (record s { flags = some (compared w (get w g s) (get w h s)) })
step (set_cc c (reg byte g)) s = elim s.flags [ none ↦ none | some f ↦ set_to (holds c f) g s ]
step _ s = none

-- one after another
unfoldable pub run : Code → State → Option State
run [] s = some s
run (i ∷ is) s = elim (step i s) [ none ↦ none | some next ↦ run is next ]
