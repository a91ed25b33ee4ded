-- ===== src/Codegen/Operations.antt =====
-- Arithmetic and comparisons on registers: `integer_arithmetic`, `integer_comparison`,
-- `floating_point_arithmetic`, `floating_point_comparison` and the macros that they and the
-- expressions share, in src/microjit/jit_x86_64.cpp. The left operand is in `a` or `xmm1`, the right
-- one in `b` or `xmm2`.
use microjit.Prelude.{ℕ, Bool, true, false, [], ◌∷◌, Option, none, some, if◌then◌else◌, ◌==◌}
use microjit.Types.{CxxType, is_signed_integer}
use microjit.Raise.{Result, ok, raise, or_raise, ◌>>=◌, unsupported_operation, unsupported_size}
use microjit.Ir.{
  OperationType, binary_add, binary_sub, binary_mul, binary_div, binary_mod, binary_equal,
  binary_not_equal, binary_greater, binary_greater_or_equal, binary_lesser, binary_lesser_or_equal,
}
use microjit.Codegen.Asm.{
  byte, dword, qword, Gp, ra, rb, rc, rd, Operand, reg, imm, xmm, Precision, ss, sd, Condition,
  cc_e, cc_ne, cc_g, cc_ge, cc_l, cc_le, cc_a, cc_nb, cc_b, cc_na, cc_p, cc_np, FpOperation, fp_add,
  fp_sub, fp_mul, fp_div, Asm, mov, add, sub, imul, xor_, cmp, cmovne, movss, movsd, div, idiv, fp,
  ucomi, comi, set_cc, Code, r64, at_reg, by_width, ◌>+>◌,
}

-- `INTEGER_ARITHMETIC_HELPER`
abbrev pub integer_arithmetic_helper : (Operand → Operand → Asm) → (size : ℕ) → Result Code
integer_arithmetic_helper op size = by_width size λ w. op (reg w ra) (reg w rb) ∷ []

-- `INTEGER_DIV`: the high half of the dividend is cleared, whatever `m_op` is.
abbrev pub integer_div : (Operand → Asm) → (size : ℕ) → Result Code
integer_div op size = by_width size λ w. xor_ (r64 rd) (r64 rd) ∷ op (reg w rb) ∷ []

-- the division that the type asks for
abbrev pub div_or_idiv : Bool → Operand → Asm
div_or_idiv true = idiv
div_or_idiv false = div

-- `integer_arithmetic`
unfoldable pub integer_arithmetic : OperationType → CxxType → Result Code
integer_arithmetic binary_add t = integer_arithmetic_helper add t.size
integer_arithmetic binary_sub t = integer_arithmetic_helper sub t.size
integer_arithmetic binary_mul t = integer_arithmetic_helper imul t.size
integer_arithmetic binary_div t = integer_div (div_or_idiv (is_signed_integer t)) t.size
integer_arithmetic binary_mod t =
    integer_div (div_or_idiv (is_signed_integer t)) t.size >+> ok (mov (r64 ra) (r64 rd) ∷ [])
integer_arithmetic _ t = raise unsupported_operation

-- `INTEGER_COMPARISON_HELPER`
abbrev pub integer_comparison_helper : Condition → (size : ℕ) → Result Code
integer_comparison_helper c size =
    by_width size λ w. cmp (reg w ra) (reg w rb) ∷ set_cc c (reg byte ra) ∷ []

-- the condition for signed and for unsigned integers
abbrev pub signed_or : Bool → Condition → Condition → Condition
signed_or true s u = s
signed_or false s u = u

-- `integer_comparison`
unfoldable pub integer_comparison : OperationType → CxxType → Result Code
integer_comparison binary_equal t = integer_comparison_helper cc_e t.size
integer_comparison binary_not_equal t = integer_comparison_helper cc_ne t.size
integer_comparison binary_greater t =
    integer_comparison_helper (signed_or (is_signed_integer t) cc_g cc_a) t.size
integer_comparison binary_greater_or_equal t =
    integer_comparison_helper (signed_or (is_signed_integer t) cc_ge cc_nb) t.size
integer_comparison binary_lesser t =
    integer_comparison_helper (signed_or (is_signed_integer t) cc_l cc_b) t.size
integer_comparison binary_lesser_or_equal t =
    integer_comparison_helper (signed_or (is_signed_integer t) cc_le cc_na) t.size
integer_comparison _ t = raise unsupported_operation

-- `INTEGER_SAVE`, to where `rcx` points
unfoldable pub integer_save : (size : ℕ) → Result Code
integer_save size = by_width size λ w. mov (at_reg w rc) (reg w ra) ∷ []

-- the `switch` on the size of a floating point number: 4 or 8
abbrev pub precision_of : ℕ → Option Precision
precision_of size = if size == 4 then some ss else if size == 8 then some sd else none

abbrev pub by_precision : ℕ → (Precision → Code) → Result Code
by_precision size code = or_raise (precision_of size) unsupported_size >>= λ p. ok (code p)

-- `movss` and `movsd`, with the memory operand of their size
abbrev pub fp_load : Precision → ℕ → Gp → Asm
fp_load ss x g = movss (xmm x) (at_reg dword g)
fp_load sd x g = movsd (xmm x) (at_reg qword g)

abbrev pub fp_store : Precision → Gp → ℕ → Asm
fp_store ss g x = movss (at_reg dword g) (xmm x)
fp_store sd g x = movsd (at_reg qword g) (xmm x)

-- `FLOATING_POINT_ARITHMETIC_HELPER`
abbrev pub floating_point_arithmetic_helper : FpOperation → (size : ℕ) → Result Code
floating_point_arithmetic_helper op size = by_precision size λ p. fp op p (xmm 1) (xmm 2) ∷ []

-- `floating_point_arithmetic`
unfoldable pub floating_point_arithmetic : OperationType → (size : ℕ) → Result Code
floating_point_arithmetic binary_add size = floating_point_arithmetic_helper fp_add size
floating_point_arithmetic binary_sub size = floating_point_arithmetic_helper fp_sub size
floating_point_arithmetic binary_mul size = floating_point_arithmetic_helper fp_mul size
floating_point_arithmetic binary_div size = floating_point_arithmetic_helper fp_div size
floating_point_arithmetic _ size = raise unsupported_operation

-- `FLOATING_POINT_CMP_EQUAL`
abbrev pub floating_point_cmp_equal : (buf : ℕ) → (first : Condition) → (size : ℕ) → Result Code
floating_point_cmp_equal buf first size = by_precision size λ p.
    ucomi p (xmm 1) (xmm 2)
    ∷ set_cc first (reg byte ra)
    ∷ mov (reg dword rd) (imm buf)
    ∷ ucomi p (xmm 1) (xmm 2)
    ∷ cmovne (reg dword ra) (reg dword rd)
    ∷ []

-- `FLOATING_POINT_CMP_OTHER`
abbrev pub floating_point_cmp_other : Condition → (size : ℕ) → Result Code
floating_point_cmp_other c size =
    by_precision size λ p. comi p (xmm 1) (xmm 2) ∷ set_cc c (reg byte ra) ∷ []

-- `floating_point_comparison`
unfoldable pub floating_point_comparison : OperationType → (size : ℕ) → Result Code
floating_point_comparison binary_equal size = floating_point_cmp_equal 0 cc_np size
floating_point_comparison binary_not_equal size = floating_point_cmp_equal 1 cc_p size
floating_point_comparison binary_greater size = floating_point_cmp_other cc_a size
floating_point_comparison binary_greater_or_equal size = floating_point_cmp_other cc_nb size
floating_point_comparison binary_lesser size = floating_point_cmp_other cc_b size
floating_point_comparison binary_lesser_or_equal size = floating_point_cmp_other cc_na size
floating_point_comparison _ size = raise unsupported_operation

-- `FLOATING_POINT_SAVE`, to where `rcx` points
unfoldable pub floating_point_save : (size : ℕ) → Result Code
floating_point_save size = by_precision size λ p. fp_store p rc 1 ∷ []
