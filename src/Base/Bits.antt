-- ===== src/Base/Bits.antt =====
-- The bits of a word, and `|` and `&` bit by bit. The digit recursion behind the native operations
-- is freed of its fuel first.
use Prim.Native.Nat.{
  ℕ, zero, suc, ◌+◌, ◌-◌, ◌*◌, ◌/◌, ◌%◌, ◌^◌, ◌≤◌, ◌<◌, min, max, bit_and, bit_or,
}
use Prim.Native.Nat.{digits, bitwise, bit_and-bitwise, bit_or-bitwise}
use mathlib.Core.Path.{◌≡◌, refl, ap, ◌∙◌, ◌≡⟨◌⟩◌, ◌∎}
use native.Mathlib.Nat.{
  le_refl, pow-suc, one-le-pow, div-add-mod, mul-add-mod_self_left, mod-eq_of_lt, mod-lt,
}
use native.Mathlib.Omega.{arith}
use first_kernel.Base.Tests.{◌==◌, if◌then◌else◌}

-- Any fuel that is at least the first operand gives the operation itself.
enough_fuel :
    (z : ℕ → ℕ) (op : ℕ → ℕ → ℕ) (bound fuel x y : ℕ)
    → x ≤ bound
    → x ≤ fuel
    → digits z op fuel x y ≡ bitwise z op x y
enough_fuel z op bound zero zero y small fits = refl
enough_fuel z op bound (suc fuel) zero y small fits = refl
enough_fuel z op bound zero (suc x) y small fits = absurd (omega arith)
enough_fuel z op zero (suc fuel) (suc x) y small fits = absurd (omega arith)
enough_fuel z op (suc bound) (suc fuel) (suc x) y small fits =
    let half = suc x / 2 in
    let here = enough_fuel z op bound fuel half (y / 2) (omega arith) (omega arith) in
    let there = enough_fuel z op bound x half (y / 2) (omega arith) (omega arith) in
    omega (arith, here, there)

pub bit_or-halves : (x y : ℕ) → bit_or x y ≡ max (x % 2) (y % 2) + 2 * bit_or (x / 2) (y / 2)
bit_or-halves zero y = simp bit_or-bitwise (omega arith)
bit_or-halves (suc x) y = omega (
  arith,
  bit_or-bitwise (suc x) y,
  bit_or-bitwise (suc x / 2) (y / 2),
  enough_fuel (λ w. w) max x x (suc x / 2) (y / 2) (omega arith) (omega arith),
)

pub bit_and-halves : (x y : ℕ) → bit_and x y ≡ min (x % 2) (y % 2) + 2 * bit_and (x / 2) (y / 2)
bit_and-halves zero y = simp bit_and-bitwise (omega arith)
bit_and-halves (suc x) y = omega (
  arith,
  bit_and-bitwise (suc x) y,
  bit_and-bitwise (suc x / 2) (y / 2),
  enough_fuel (λ w. 0) min x x (suc x / 2) (y / 2) (omega arith) (omega arith),
)

-- Bit `k` of a word, 0 or 1.
abbrev pub bit : ℕ → ℕ → ℕ
bit a zero = a % 2
bit a (suc k) = bit (a / 2) k

pub bit_bound : (a k : ℕ) → bit a k < 2
bit_bound a zero = omega arith
bit_bound a (suc k) = bit_bound (a / 2) k

pub bit-zero : (k : ℕ) → bit 0 k ≡ 0
bit-zero zero = refl
bit-zero (suc k) = bit-zero k

pub bit-bit_or : (k a b : ℕ) → bit (bit_or a b) k ≡ max (bit a k) (bit b k)
bit-bit_or zero a b = omega (arith, bit_or-halves a b)
bit-bit_or (suc k) a b =
    ap (λ t. bit t k) (omega (arith, bit_or-halves a b)) ∙ bit-bit_or k (a / 2) (b / 2)

pub bit-bit_and : (k a b : ℕ) → bit (bit_and a b) k ≡ min (bit a k) (bit b k)
bit-bit_and zero a b = omega (arith, bit_and-halves a b)
bit-bit_and (suc k) a b =
    ap (λ t. bit t k) (omega (arith, bit_and-halves a b)) ∙ bit-bit_and k (a / 2) (b / 2)

half-pow : (k : ℕ) → 2 ^ suc k / 2 ≡ 2 ^ k
half-pow k = omega (arith, pow-suc 2 k)

pub bit-pow : (k j : ℕ) → bit (2 ^ k) j ≡ (if k == j then 1 else 0)
bit-pow zero zero = refl
bit-pow zero (suc j) = ground (arith, bit-zero j)
bit-pow (suc k) zero = ground (arith, pow-suc 2 k)
bit-pow (suc k) (suc j) = ap (λ t. bit t j) (half-pow k) ∙ bit-pow k j ∙ ground arith

-- `~x` of a word of `w` bits.
pub bit-complement : (w x k : ℕ) → x < 2 ^ w → k < w → bit (2 ^ w - 1 - x) k ≡ 1 - bit x k
bit-complement zero x k hx hk = absurd (omega arith)
bit-complement (suc w) x zero hx hk = omega (arith, pow-suc 2 w)
bit-complement (suc w) x (suc k) hx hk =
    ap (λ t. bit t k) (omega (arith, pow-suc 2 w))
    ∙ bit-complement w (x / 2) k (omega (arith, pow-suc 2 w)) (omega arith)

-- 0 on the right, for `&` and for `|`.
zero_right : (bound x : ℕ) → x ≤ bound → (bit_and x 0 ≡ 0) × (bit_or x 0 ≡ x)
zero_right bound zero small = (refl, refl)
zero_right zero (suc x) small = absurd (omega arith)
zero_right (suc bound) (suc x) small =
    let half = zero_right bound (suc x / 2) (omega arith) in
    (
      omega (arith, bit_and-halves (suc x) 0, half.0),
      omega (arith, bit_or-halves (suc x) 0, half.1),
    )

pub bit_and-zero : (a : ℕ) → bit_and a 0 ≡ 0
bit_and-zero a = (zero_right a a (le_refl a)).0

pub bit_or-zero : (a : ℕ) → bit_or a 0 ≡ a
bit_or-zero a = (zero_right a a (le_refl a)).1

-- `x & (1 << k)` is bit `k` in its place.
pub bit_and-pow : (k a : ℕ) → bit_and a (2 ^ k) ≡ bit a k * 2 ^ k
bit_and-pow zero a = omega (arith, bit_and-halves a 1, bit_and-zero (a / 2))
bit_and-pow (suc k) a = ground (
  arith,
  bit_and-halves a (2 ^ suc k),
  half-pow k,
  pow-suc 2 k,
  bit_and-pow k (a / 2),
  ap (λ (t : ℕ). bit (a / 2) k * t) (pow-suc 2 k),
)

mod-double : (p a : ℕ) → 0 < p → a % (p * 2) ≡ a / 2 % p * 2 + a % 2
mod-double p a h =
    a % (p * 2)
    ≡⟨ ap (λ t. t % (p * 2)) (omega (arith, div-add-mod (a / 2) p)) ⟩
      (p * 2 * (a / 2 / p) + (a / 2 % p * 2 + a % 2)) % (p * 2)
    ≡⟨ mul-add-mod_self_left (p * 2) (a / 2 / p) (a / 2 % p * 2 + a % 2) ⟩
      (a / 2 % p * 2 + a % 2) % (p * 2)
    ≡⟨ mod-eq_of_lt (omega (arith, mod-lt (a / 2) h)) ⟩ a / 2 % p * 2 + a % 2 ∎

-- A mask of `k` low bits is the remainder by `2 ^ k`.
pub bit_and_mask : (k a : ℕ) → bit_and a (2 ^ k - 1) ≡ a % 2 ^ k
bit_and_mask zero a = rw bit_and-zero (omega arith)
bit_and_mask (suc k) a = ground (
  arith,
  bit_and-halves a (2 ^ suc k - 1),
  pow-suc 2 k,
  one-le-pow k 2,
  ap (λ (t : ℕ). bit_and (a / 2) t) mask_half,
  bit_and_mask k (a / 2),
  mod-double (2 ^ k) a,
)
  where
    mask_half : (2 ^ suc k - 1) / 2 ≡ 2 ^ k - 1
    mask_half = omega (arith, pow-suc 2 k)

-- `(q << k) | r` is a sum when `r` has no bit from `k` on.
pub bit_or-shifted : (k q r : ℕ) → r < 2 ^ k → bit_or (q * 2 ^ k) r ≡ q * 2 ^ k + r
bit_or-shifted zero q r h = ground (arith, bit_or-zero q)
bit_or-shifted (suc k) q r h = ground (
  arith,
  bit_or-halves (q * 2 ^ suc k) r,
  ap (λ (t : ℕ). q * t) (pow-suc 2 k),
  bit_or-shifted k q (r / 2) (omega (arith, pow-suc 2 k)),
)

both_orders : (bound x y : ℕ) → x ≤ bound → y ≤ bound → bit_or x y ≡ bit_or y x
both_orders zero zero zero hx hy = refl
both_orders zero zero (suc y) hx hy = absurd (omega arith)
both_orders zero (suc x) y hx hy = absurd (omega arith)
both_orders (suc bound) x y hx hy = omega (
  arith,
  bit_or-halves x y,
  bit_or-halves y x,
  both_orders bound (x / 2) (y / 2) (omega arith) (omega arith),
)

pub bit_or_comm : (x y : ℕ) → bit_or x y ≡ bit_or y x
bit_or_comm x y = both_orders (x + y) x y (omega arith) (omega arith)

-- A mask of the upper four bits of a byte.
pub bit_and_high : (a : ℕ) → a < 2 ^ 8 → bit_and a 0xF0 ≡ a / 2 ^ 4 * 2 ^ 4
bit_and_high a h = omega (
  arith,
  bit_and-halves a 240,
  bit_and-halves (a / 2) 120,
  bit_and-halves (a / 2 / 2) 60,
  bit_and-halves (a / 2 / 2 / 2) 30,
  bit_and_mask 4 (a / 2 / 2 / 2 / 2),
)

-- A number below 2 ^ k, and one that is a multiple of it.
pub bit_or_low : (k q r : ℕ) → r < 2 ^ k → bit_or r (q * 2 ^ k) ≡ q * 2 ^ k + r
bit_or_low k q r h = bit_or_comm r (q * 2 ^ k) ∙ bit_or-shifted k q r h

-- A mask of all but the lower two bits of a byte.
pub bit_and_aligned : (a : ℕ) → a < 2 ^ 8 → bit_and a 0xFC ≡ a / 2 ^ 2 * 2 ^ 2
bit_and_aligned a h =
    omega (arith, bit_and-halves a 252, bit_and-halves (a / 2) 126, bit_and_mask 6 (a / 2 / 2))
