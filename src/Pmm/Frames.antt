-- ===== src/Pmm/Frames.antt =====
-- `init_pmm`, `pmm_alloc_frame` and `pmm_free_frame` as operations on the set of used frames.
use first_kernel.Base.{
  ℕ, zero, suc, ◌+◌, ◌*◌, ◌/◌, ◌%◌, ◌≤◌, ◌<◌, ◌≡◌, refl, ap, ◌⊎◌, inl, inr, Option, some, get_or,
  replicate, ◌==◌, ==_iff, if◌then◌else◌, ltb, arith, bit, bit-zero, bit_bound, Bool-cases,
  length-replicate, get_or-replicate,
}
use first_kernel.Pmm.{
  Bitmap, pmm_block, pmm_block_size, pmm_set_bit, reserve, init_pmm, alloc_from, pmm_alloc_frame,
  pmm_free_frame,
}
use first_kernel.Pmm.Bitmap.{
  IsBitmap, frame_bit, Marks, pmm_set_bit_lem, pmm_clear_bit_lem, pmm_test_bit_lem, mask_pos,
}

-- The search from frame `n` on found frame `k`, the first free one, and marked it used.
pub record Granted (n : ℕ) (bitmap : Bitmap) (result : Option (Bitmap × ℕ)) : Type 0 where
  pub frame : ℕ
  pub after : Bitmap
  pub from : n ≤ frame
  pub below : frame < pmm_block
  pub free : frame_bit bitmap frame ≡ 0
  pub first : (m : ℕ) → n ≤ m → m < frame → frame_bit bitmap m ≡ 1
  pub returns : result ≡ some (after, frame * pmm_block_size)
  pub marks : Marks frame 1 bitmap after

-- No frame from `n` on is free: the result is 0, and nothing changed.
pub record Refused (n : ℕ) (bitmap : Bitmap) (result : Option (Bitmap × ℕ)) : Type 0 where
  pub full : (m : ℕ) → n ≤ m → m < pmm_block → frame_bit bitmap m ≡ 1
  pub returns : result ≡ some (bitmap, 0)

alloc_from-free :
    (left n : ℕ) (bitmap bitmap' : Bitmap)
    → IsBitmap bitmap
    → n < pmm_block
    → frame_bit bitmap n ≡ 0
    → pmm_set_bit bitmap n ≡ some bitmap'
    → alloc_from (suc left) n bitmap ≡ some (bitmap', n * pmm_block_size)
unfolding alloc_from
alloc_from-free left n bitmap bitmap' shape below free marked =
    rw (pmm_test_bit_lem bitmap n shape below, free) (ground arith)

alloc_from-used :
    (left n : ℕ) (bitmap : Bitmap)
    → IsBitmap bitmap
    → n < pmm_block
    → frame_bit bitmap n ≡ 1
    → alloc_from (suc left) n bitmap ≡ alloc_from left (n + 1) bitmap
unfolding alloc_from
alloc_from-used left n bitmap shape below used =
    rw (pmm_test_bit_lem bitmap n shape below, used) (ground (arith, mask_pos bitmap n shape below))

bit-cases : (a k : ℕ) → (bit a k ≡ 0) ⊎ (bit a k ≡ 1)
bit-cases a k = omega (arith, bit_bound a k)

alloc_from_lem :
    (left n : ℕ) (bitmap : Bitmap)
    → IsBitmap bitmap
    → n + left ≡ pmm_block
    → Granted n bitmap (alloc_from left n bitmap) ⊎ Refused n bitmap (alloc_from left n bitmap)
alloc_from_lem zero n bitmap shape e =
    inr record { full = λ m p q. absurd (omega arith); returns = unfold alloc_from in refl }
alloc_from_lem (suc left) n bitmap shape e = elim (bit-cases (get_or bitmap (n / 32) 0) (n % 32)) [
  | inl free ↦ inl (grant free (pmm_set_bit_lem bitmap n shape below))
  | inr used ↦
      rw (alloc_from-used left n bitmap shape below used)
        (later used (alloc_from_lem left (n + 1) bitmap shape (omega arith)))
]
  where
    below : n < pmm_block
    below = omega arith

    grant :
        frame_bit bitmap n ≡ 0
        → ((bitmap' : Bitmap) × (pmm_set_bit bitmap n ≡ some bitmap') × Marks n 1 bitmap bitmap')
        → Granted n bitmap (alloc_from (suc left) n bitmap)
    grant free (bitmap', marked, marks) = record {
      frame = n;
      after = bitmap';
      from = omega arith;
      below = below;
      free = free;
      first = λ m p q. absurd (omega arith);
      returns = alloc_from-free left n bitmap bitmap' shape below free marked;
      marks = marks;
    }

    used_from :
        (k : ℕ)
        → frame_bit bitmap n ≡ 1
        → ((m : ℕ) → n + 1 ≤ m → m < k → frame_bit bitmap m ≡ 1)
        → (m : ℕ) → n ≤ m
        → m < k
        → frame_bit bitmap m ≡ 1
    used_from k used rest m p q = elim (Bool-cases (n == m)) [
      | inl e ↦ rw (← (==_iff n m).0 e) used
      | inr e ↦ rest m (ground arith) q
    ]

    later :
        {result : Option (Bitmap × ℕ)}
        → frame_bit bitmap n ≡ 1
        → Granted (n + 1) bitmap result ⊎ Refused (n + 1) bitmap result
        → Granted n bitmap result ⊎ Refused n bitmap result
    later used (inl g) = inl record {
      frame = g.frame;
      after = g.after;
      from = omega (arith, g.from);
      below = g.below;
      free = g.free;
      first = used_from g.frame used g.first;
      returns = g.returns;
      marks = g.marks;
    }
    later used (inr r) = inr record { full = used_from pmm_block used r.full; returns = r.returns }

-- `pmm_alloc_frame` on a bitmap of 128 words faults nowhere. If a frame is free, it returns the
-- address of the first free one, marks that frame used and changes no other; otherwise it returns 0
-- and changes nothing.
pub pmm_alloc_frame_lem :
    (bitmap : Bitmap)
    → IsBitmap bitmap
    → Granted 0 bitmap (pmm_alloc_frame bitmap) ⊎ Refused 0 bitmap (pmm_alloc_frame bitmap)
unfolding pmm_alloc_frame
pmm_alloc_frame_lem bitmap shape = alloc_from_lem pmm_block 0 bitmap shape (omega arith)

-- In short: a result, whatever it is, a frame's address below 16 MiB or 0.
pub pmm_alloc_frame_total :
    (bitmap : Bitmap)
    → IsBitmap bitmap
    → (bitmap' : Bitmap) × (addr : ℕ) × (pmm_alloc_frame bitmap ≡ some (bitmap', addr))
      × IsBitmap bitmap'
      × (addr ≤ 4095 * 4096)
pmm_alloc_frame_total bitmap shape = elim (pmm_alloc_frame_lem bitmap shape) [
  | inl g ↦ (g.after, g.frame * pmm_block_size, g.returns, g.marks.shape, omega (arith, g.below))
  | inr r ↦ (bitmap, 0, r.returns, shape, omega arith)
]

-- `pmm_free_frame` of any address below 16 MiB marks the frame that holds it free and changes no
-- other.
pub pmm_free_frame_lem :
    (bitmap : Bitmap) (addr : ℕ)
    → IsBitmap bitmap
    → addr < pmm_block * pmm_block_size
    → (bitmap' : Bitmap) × (pmm_free_frame bitmap addr ≡ some bitmap')
      × Marks (addr / pmm_block_size) 0 bitmap bitmap'
unfolding pmm_free_frame
pmm_free_frame_lem bitmap addr shape h =
    pmm_clear_bit_lem bitmap (addr / pmm_block_size) shape (omega arith)

-- What `reserve` has done: frames `i` to `j - 1` are used, the others as before.
record Reserved (i j : ℕ) (bitmap : Bitmap) (result : Option Bitmap) : Type 0 where
  after : Bitmap
  returns : result ≡ some after
  shape : IsBitmap after
  inside : (m : ℕ) → i ≤ m → m < j → frame_bit after m ≡ 1
  outside : (m : ℕ) → (m < i) ⊎ (j ≤ m) → frame_bit after m ≡ frame_bit bitmap m

reserve_lem :
    (left i j : ℕ) (bitmap : Bitmap)
    → IsBitmap bitmap
    → i + left ≡ j
    → j ≤ pmm_block
    → Reserved i j bitmap (reserve left i bitmap)
reserve_lem zero i j bitmap shape e h = record {
  after = bitmap;
  returns = unfold reserve in refl;
  shape = shape;
  inside = λ m p q. absurd (omega arith);
  outside = λ m p. refl;
}
reserve_lem (suc left) i j bitmap shape e h =
    extend (pmm_set_bit_lem bitmap i shape (omega arith))
      (λ bitmap' shape'. reserve_lem left (i + 1) j bitmap' shape' (omega arith) h)
  where
    extend :
        ((bitmap' : Bitmap) × (pmm_set_bit bitmap i ≡ some bitmap') × Marks i 1 bitmap bitmap')
        → ((bitmap' : Bitmap)
            → IsBitmap bitmap'
            → Reserved (i + 1) j bitmap' (reserve left (i + 1) bitmap'))
        → Reserved i j bitmap (reserve (suc left) i bitmap)
    extend (bitmap', marked, marks) rest = record {
      after = (rest bitmap' marks.shape).after;
      returns = unfold reserve in rw marked (rest bitmap' marks.shape).returns;
      shape = (rest bitmap' marks.shape).shape;
      inside = λ m p q. ground (
        arith,
        (rest bitmap' marks.shape).inside m,
        (rest bitmap' marks.shape).outside m,
        marks.marked m,
      );
      outside = λ m p. ground (arith, (rest bitmap' marks.shape).outside m, marks.marked m);
    }

-- `init_pmm` faults nowhere and leaves exactly the first 256 frames, the first MiB, in use.
pub init_pmm_lem :
    (bitmap : Bitmap) × (init_pmm ≡ some bitmap)
    × IsBitmap bitmap
    × ((m : ℕ) → frame_bit bitmap m ≡ (if ltb m 256 then 1 else 0))
unfolding init_pmm
init_pmm_lem = (
  start.after,
  start.returns,
  start.shape,
  λ m. ground (
    arith,
    start.inside m,
    start.outside m,
    ap (λ (w : ℕ). bit w (m % 32)) (get_or-replicate {A = ℕ} 128 0 (m / 32)),
    bit-zero (m % 32),
  ),
)
  where
    start : Reserved 0 256 (replicate 128 0) (reserve 256 0 (replicate 128 0))
    start =
        reserve_lem 256 0 256 (replicate 128 0) (length-replicate {A = ℕ} 128 0) (omega arith)
          (omega arith)
