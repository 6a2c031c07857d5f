-- ===== src/Pmm/Bitmap.antt =====
-- The three bit operations of drivers/pmm.c as operations on the set of used frames.
use first_kernel.Base.{
  ℕ, ◌-◌, ◌*◌, ◌/◌, ◌%◌, ◌^◌, ◌<◌, bit_and, bit_or, ◌≡◌, some, get_elem?, get_or, set, length, ◌==◌,
  if◌then◌else◌, arith, length-set, get_or-set_self, get_or-set_ne, get_elem?-eq-get_or, bit,
  bit-bit_or, bit-bit_and, bit-pow, bit-complement, bit_and-pow, bit_bound,
}
use native.Mathlib.Nat.{one-le-pow, pow-le-pow_right, lt_of_le_of_lt}
use first_kernel.Pmm.{Bitmap, mask, pmm_block, pmm_set_bit, pmm_clear_bit, pmm_test_bit}

-- 1 if the frame is in use, 0 if it is free.
abbrev pub frame_bit : Bitmap → ℕ → ℕ
frame_bit bitmap n = bit (get_or bitmap (n / 32) 0) (n % 32)

-- The array of the source has 128 words.
abbrev pub IsBitmap : Bitmap → Type 0
IsBitmap bitmap = length bitmap ≡ pmm_block / 32

-- `bitmap'` is `bitmap` with frame `n` marked `v`, every other frame as before.
pub record Marks (n v : ℕ) (bitmap bitmap' : Bitmap) : Type 0 where
  pub shape : IsBitmap bitmap'
  pub marked : (m : ℕ) → frame_bit bitmap' m ≡ (if n == m then v else frame_bit bitmap m)

module _ (bitmap : Bitmap) (n : ℕ) (shape : IsBitmap bitmap) (below : n < pmm_block) where
  word : ℕ
  word = get_or bitmap (n / 32) 0

  get_word : get_elem? bitmap (n / 32) ≡ some word
  unfolding word
  get_word = get_elem?-eq-get_or bitmap (n / 32) 0 (omega arith)

  -- Changing bit `n % 32` of its word is marking frame `n`.
  set-Marks :
      (v w : ℕ)
      → ((k : ℕ) → k < 32 → bit w k ≡ (if n % 32 == k then v else bit word k))
      → Marks n v bitmap (set bitmap (n / 32) w)
  unfolding word
  set-Marks v w changed = record {
    shape = rw length-set shape;
    marked = λ m. ground (
      arith,
      changed (m % 32),
      get_or-set_self bitmap (n / 32) w 0,
      get_or-set_ne bitmap (n / 32) (m / 32) w 0,
    );
  }

  pub pmm_set_bit_lem :
      (bitmap' : Bitmap) × (pmm_set_bit bitmap n ≡ some bitmap') × Marks n 1 bitmap bitmap'
  unfolding pmm_set_bit
  pmm_set_bit_lem = (
    set bitmap (n / 32) (bit_or word (mask n)),
    ground (arith, get_word),
    set-Marks 1 (bit_or word (mask n))
        λ k h. ground (arith, bit-bit_or k word (mask n), bit-pow (n % 32) k, bit_bound word k),
  )

  mask_lt : mask n < 2 ^ 32
  mask_lt =
      lt_of_le_of_lt (pow-le-pow_right {n = 2} (omega arith) {j = 31} (omega arith)) (omega arith)

  pub pmm_clear_bit_lem :
      (bitmap' : Bitmap) × (pmm_clear_bit bitmap n ≡ some bitmap') × Marks n 0 bitmap bitmap'
  unfolding pmm_clear_bit
  pmm_clear_bit_lem = (
    set bitmap (n / 32) (bit_and word (2 ^ 32 - 1 - mask n)),
    ground (arith, get_word),
    set-Marks 0 (bit_and word (2 ^ 32 - 1 - mask n)) λ k h. ground (
      arith,
      bit-bit_and k word (2 ^ 32 - 1 - mask n),
      bit-complement 32 (mask n) k mask_lt,
      bit-pow (n % 32) k,
      bit_bound word k,
    ),
  )

  -- The result is zero exactly when the frame is free.
  pub mask_pos : 0 < mask n
  mask_pos = one-le-pow (n % 32) 2 (omega arith)

  pub pmm_test_bit_lem : pmm_test_bit bitmap n ≡ some (frame_bit bitmap n * mask n)
  unfolding pmm_test_bit word
  pmm_test_bit_lem = ground (arith, get_word, bit_and-pow (n % 32) word)
