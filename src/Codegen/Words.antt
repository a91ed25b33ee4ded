-- ===== src/Codegen/Words.antt =====
-- Words in registers and in memory.
use microjit.Prelude.{ℕ, zero, suc, ◌+◌, ◌*◌, ◌/◌, ◌%◌, ◌≤◌, ◌<◌, ◌≡◌, refl, ap, ◌∙◌, arith}
use native.Mathlib.Nat.{add-mul-mod_self_left, mod-eq_of_lt, mod-lt, mod-mod}
use native.Mathlib.Omega.{div_any}
use microjit.Prelude.Int.{ℤ, pos, negsuc}
use microjit.Codegen.Asm.{Width, byte, word, dword, qword, bytes, low}
use microjit.Codegen.Machine.{load, store, merge, address}

-- 256 to the power of the number of bytes
unfoldable pub bound : ℕ → ℕ
bound zero = 1
bound (suc n) = 256 * bound n

pub load-bound : (n : ℕ) (m : ℕ → ℕ) (a : ℕ) → load n m a < bound n
unfolding load bound
load-bound zero m a = omega arith
load-bound (suc n) m a = let h = load-bound n m (a + 1) in omega arith

-- a load does not see what stands before its address
load-after : (n : ℕ) (m k : ℕ → ℕ) (a : ℕ) → ((b : ℕ) → a ≤ b → m b ≡ k b) → load n m a ≡ load n k a
unfolding load
load-after zero m k a h = refl
load-after (suc n) m k a h =
    let first = h a (omega arith) in
    let rest = load-after n m k (a + 1) (λ b g. h b (omega arith)) in rw first (rw rest refl)

pub bound-positive : (n : ℕ) → 0 < bound n
unfolding bound
bound-positive zero = omega arith
bound-positive (suc n) = let h = bound-positive n in omega arith

pub mod-bound : (v b : ℕ) → 0 < b → v % (256 * b) ≡ v % 256 + 256 * (v / 256 % b)
mod-bound v b h =
    let q : ℕ = v / 256 in
    let small : q % b < b = mod-lt q h in
    let split : b * (q / b) + q % b ≡ q = div_any q b in
    let whole : v ≡ (v % 256 + 256 * (q % b)) + 256 * b * (q / b) = grind arith in
    ap (λ n. n % (256 * b)) whole
    ∙ add-mul-mod_self_left (v % 256 + 256 * (q % b)) (256 * b) (q / b)
    ∙ mod-eq_of_lt (omega arith)

store-after :
    (n : ℕ) (m : ℕ → ℕ) (a v b : ℕ)
    → a + 1 ≤ b
    → store (suc n) m a v b ≡ store n m (a + 1) (v / 256) b
unfolding store
store-after n m a v b h = ground arith

store-at : (n : ℕ) (m : ℕ → ℕ) (a v : ℕ) → store (suc n) m a v a ≡ v % 256
unfolding store
store-at n m a v = ground arith

-- a value that is written is read, as far as the bytes reach
pub load-store : (n : ℕ) (m : ℕ → ℕ) (a v : ℕ) → load n (store n m a v) a ≡ v % bound n
unfolding load bound
load-store zero m a v = omega arith
load-store (suc n) m a v =
    let first = store-at n m a v in
    let rest : load n (store (suc n) m a v) (a + 1) ≡ v / 256 % bound n =
      load-after n _ _ (a + 1) (store-after n m a v) ∙ load-store n m (a + 1) (v / 256) in
    let split = mod-bound v (bound n) (bound-positive n) in
    rw first (rw rest (rw split (omega arith)))

pub low-merge : (w : Width) (old v : ℕ) → low w (merge w old v) ≡ low w v
unfolding merge
low-merge byte old v = omega arith
low-merge word old v = omega arith
low-merge dword old v = omega arith
low-merge qword old v = omega arith

pub low-load : (w : Width) (m : ℕ → ℕ) (a : ℕ) → low w (load (bytes w) m a) ≡ load (bytes w) m a
unfolding bound
low-load byte m a = let h = load-bound 1 m a in omega arith
low-load word m a = let h = load-bound 2 m a in omega arith
low-load dword m a = let h = load-bound 4 m a in omega arith
low-load qword m a = let h = load-bound 8 m a in omega arith

pub merge-address : (old b : ℕ) (d : ℤ) → merge qword old (address b d) ≡ address b d
unfolding merge address
merge-address old b (pos k) = mod-mod _ _
merge-address old b (negsuc k) = mod-mod _ _

pub address-zero : (b : ℕ) (d : ℤ) → address (address b d) (pos 0) ≡ address b d
unfolding address
address-zero b (pos k) = omega arith
address-zero b (negsuc k) = omega arith

pub low-store :
    (w : Width) (m : ℕ → ℕ) (a v : ℕ) → load (bytes w) (store (bytes w) m a v) a ≡ low w v
unfolding bound
low-store byte m a v = load-store 1 m a v
low-store word m a v = load-store 2 m a v
low-store dword m a v = load-store 4 m a v
low-store qword m a v = load-store 8 m a v
