-- ===== src/Word/Defs.antt =====
-- The operations. `^` is the sum ⊕ of the ring of sequences over F2.
use extension_field_pcg.Common.{ℕ, zero, suc, ◌+◌, ◌-◌, ◌/◌, ◌%◌, Bool, true, false, ◌&&◌, ◌||◌}
use extension_field_pcg.Common.{ltb, leb, ◌==◌, if◌then◌else◌, xor, ◌≡◌, arith}
use extension_field_pcg.Algebra.{Ring2}
use extension_field_pcg.Algebra.Series.{cauchy}

-- F2: exclusive or, and conjunction.
pub xor_assoc : (a b c : Bool) → xor (xor a b) c ≡ xor a (xor b c)
unfolding xor
xor_assoc a b c = ground arith

pub xor_comm : (a b : Bool) → xor a b ≡ xor b a
unfolding xor
xor_comm a b = ground arith

pub false-xor : (a : Bool) → xor false a ≡ a
unfolding xor
false-xor a = ground arith

pub xor_self : (a : Bool) → xor a a ≡ false
unfolding xor
xor_self a = ground arith

pub and_assoc : (a b c : Bool) → ((a && b) && c) ≡ (a && (b && c))
and_assoc a b c = ground arith

pub and_comm : (a b : Bool) → (a && b) ≡ (b && a)
and_comm a b = ground arith

pub true-and : (a : Bool) → (true && a) ≡ a
true-and a = ground arith

pub and-xor : (a b c : Bool) → (a && xor b c) ≡ xor (a && b) (a && c)
unfolding xor
and-xor a b c = ground arith

instance abbrev pub f2 : Ring2 Bool
f2 = record {
  nil = false;
  one = true;
  add = xor;
  mul = ◌&&◌;
  add_assoc = xor_assoc;
  add_comm = xor_comm;
  nil-add = false-xor;
  add_self = xor_self;
  mul_assoc = and_assoc;
  mul_comm = and_comm;
  one-mul = true-and;
  mul-add = and-xor;
}

abbrev pub Bits : Type 0
Bits = ℕ → Bool

-- The bits of an unsigned constant.
unfoldable pub of_ℕ : ℕ → Bits
of_ℕ n zero = n % 2 == 1
of_ℕ n (suc i) = of_ℕ (n / 2) i

-- `a & b` and `a | b`
abbrev pub both : Bits → Bits → Bits
both a b i = a i && b i

abbrev pub either : Bits → Bits → Bits
either a b i = a i || b i

-- `block(high, low)`, which is `_mm_set_epi64x(high, low)`.
unfoldable pub block : Bits → Bits → Bits
block high low i = if ltb i 64 then low i else ltb i 128 && high (i - 64)

-- `_mm_extract_epi64(x, 0)` and `_mm_extract_epi64(x, 1)`.
unfoldable pub extract_low : Bits → Bits
extract_low x i = ltb i 64 && x i

unfoldable pub extract_high : Bits → Bits
extract_high x i = ltb i 64 && x (i + 64)

-- `w << k` and `w >> k` on `uint64_t`.
unfoldable pub shift_left : Bits → ℕ → Bits
shift_left w k i = ltb i 64 && (leb k i && w (i - k))

unfoldable pub shift_right : Bits → ℕ → Bits
shift_right w k i = ltb (i + k) 64 && w (i + k)

-- `_mm_clmulepi64_si128(x, y, imm8)`: bit 0 of the immediate chooses the half of `x`, bit 4 that
-- of `y`. Bit i of the result is the xor of `a[j] & b[i - j]` over j up to i.
abbrev pub half_of : Bits → ℕ → Bits
half_of x zero = extract_low x
half_of x (suc k) = extract_high x

unfoldable pub clmulepi64 : Bits → Bits → ℕ → Bits
clmulepi64 x y imm8 = cauchy (half_of x (imm8 % 2)) (half_of y (imm8 / 16 % 2))

-- `_pdep_u64(w, mask)`: the low bits of `w`, in order, go to the places where the mask is set.
-- `rank mask m` is the number of those below m.
unfoldable pub rank : Bits → ℕ → ℕ
rank mask zero = 0
rank mask (suc m) = if mask m then suc (rank mask m) else rank mask m

unfoldable pub pdep : Bits → Bits → Bits
unfolding rank
pdep w mask m = (ltb m 64 && mask m) && w (rank mask m)

-- `_pext_u64(w, mask)`: the bits of `w` at the places where the mask is set, in order, become the
-- low bits. `select left m k` looks for the k-th such place from m on, among `left` places.
unfoldable pub select : Bits → Bits → ℕ → ℕ → ℕ → Bool
select w mask zero m k = false
select w mask (suc left) m zero = if mask m then w m else select w mask left (suc m) zero
select w mask (suc left) m (suc k) = select w mask left (suc m) (if mask m then k else suc k)

unfoldable pub pext : Bits → Bits → Bits
unfolding select
pext w mask k = select w mask 64 0 k

-- `x << k` and `x >> k` on a block shift each of its 64-bit halves.
unfoldable pub shift_left_halves : Bits → ℕ → Bits
shift_left_halves x k i = (ltb i 128 && leb k (i % 64)) && x (i - k)

unfoldable pub shift_right_halves : Bits → ℕ → Bits
shift_right_halves x k i = (ltb i 128 && ltb (i % 64 + k) 64) && x (i + k)

-- `setBytes(t, v)`: each of the sixteen bytes becomes v.
unfoldable pub set_bytes : ℕ → Bits
unfolding of_ℕ
set_bytes v i = ltb i 128 && of_ℕ v (i % 8)
