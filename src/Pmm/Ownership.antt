-- ===== src/Pmm/Ownership.antt =====
-- Runs of the frame allocator from `init_pmm`: who owns which frame.
use first_kernel.Base.{
  ℕ, ◌*◌, ◌/◌, ◌≤◌, ◌<◌, ◌≡◌, ◌∙◌, sym, ◌≢◌, inl, inr, Option, some, ◌==◌, if◌then◌else◌, ltb,
  arith, Bool, true, false, ◌||◌,
}
use first_kernel.Pmm.{Bitmap, pmm_block, pmm_block_size, init_pmm, pmm_alloc_frame, pmm_free_frame}
use first_kernel.Pmm.Bitmap.{IsBitmap, frame_bit, Marks}
use first_kernel.Pmm.Frames.{
  Granted, Refused, pmm_alloc_frame_lem, pmm_free_frame_lem, init_pmm_lem,
}

-- Which frames have been handed out and not been given back.
abbrev pub Owned : Type 0
Owned = ℕ → Bool

abbrev pub update : Owned → ℕ → Bool → Owned
update owned n v m = if n == m then v else owned m

-- The states that boot, allocation and the freeing of an owned frame lead to.
pub data Reach : Bitmap → Owned → Type 0 where
  boot : {bitmap : Bitmap} → init_pmm ≡ some bitmap → Reach bitmap (λ _. false)
  alloc :
      {bitmap bitmap' : Bitmap} {owned : Owned} (n : ℕ)
      → Reach bitmap owned
      → pmm_alloc_frame bitmap ≡ some (bitmap', n * pmm_block_size)
      → n ≢ 0
      → Reach bitmap' (update owned n true)
  refuse :
      {bitmap bitmap' : Bitmap} {owned : Owned}
      → Reach bitmap owned
      → pmm_alloc_frame bitmap ≡ some (bitmap', 0)
      → Reach bitmap' owned
  free :
      {bitmap bitmap' : Bitmap} {owned : Owned} (n : ℕ)
      → Reach bitmap owned
      → owned n ≡ true
      → pmm_free_frame bitmap (n * pmm_block_size) ≡ some bitmap'
      → Reach bitmap' (update owned n false)

-- The bitmap records the reserved first MiB and the owned frames, and these do not overlap.
pub record Tracks (bitmap : Bitmap) (owned : Owned) : Type 0 where
  pub shape : IsBitmap bitmap
  pub agrees : (m : ℕ) → frame_bit bitmap m ≡ (if ltb m 256 || owned m then 1 else 0)
  pub apart : (m : ℕ) → owned m ≡ true → (256 ≤ m) × (m < pmm_block)

some-pair :
    {a a' : Bitmap} {m n : ℕ}
    → ◌≡◌ {A = Option (Bitmap × ℕ)} (some (a, m)) (some (a', n))
    → (a ≡ a') × (m ≡ n)
some-pair e = ground arith

-- Granting the frame that the search found.
mark-Tracks :
    {bitmap : Bitmap} {owned : Owned}
    → Tracks bitmap owned
    → (g : Granted 0 bitmap (pmm_alloc_frame bitmap))
    → Tracks g.after (update owned g.frame true) × (owned g.frame ≡ false) × (256 ≤ g.frame)
mark-Tracks {bitmap} {owned} t g = (
  record {
    shape = g.marks.shape;
    agrees = λ m. ground (arith, g.marks.marked m, t.agrees m, t.agrees g.frame, g.free);
    apart = λ m p. ground (arith, t.apart m, t.agrees g.frame, g.free, g.below);
  },
  ground (arith, t.agrees g.frame, g.free),
  ground (arith, t.agrees g.frame, g.free),
)

module _ {bitmap : Bitmap} {owned : Owned} (t : Tracks bitmap owned) where
  alloc-Tracks :
      {bitmap' : Bitmap} (n : ℕ)
      → pmm_alloc_frame bitmap ≡ some (bitmap', n * pmm_block_size)
      → n ≢ 0
      → Tracks bitmap' (update owned n true) × (owned n ≡ false) × (256 ≤ n) × (n < pmm_block)
  alloc-Tracks {bitmap'} n e ne = elim (pmm_alloc_frame_lem bitmap t.shape) [
    | inl g ↦ granted g (some-pair (sym g.returns ∙ e))
    | inr r ↦ absurd (refused (some-pair (sym r.returns ∙ e)))
  ]
    where
      granted :
          (g : Granted 0 bitmap (pmm_alloc_frame bitmap))
          → (g.after ≡ bitmap') × (g.frame * pmm_block_size ≡ n * pmm_block_size)
          → Tracks bitmap' (update owned n true) × (owned n ≡ false) × (256 ≤ n) × (n < pmm_block)
      granted g (same_bitmap, same_addr) =
          let same_frame : g.frame ≡ n = omega arith in
          let m = mark-Tracks t g in rw (← same_bitmap, ← same_frame) (m.0, m.1, m.2, g.below)

      refused : (bitmap ≡ bitmap') × (0 ≡ n * pmm_block_size) → ⊥
      refused (same_bitmap, same_addr) = ne (omega arith)

  refuse-Tracks :
      {bitmap' : Bitmap}
      → pmm_alloc_frame bitmap ≡ some (bitmap', 0)
      → Tracks bitmap' owned × ((m : ℕ) → 256 ≤ m → m < pmm_block → owned m ≡ true)
  refuse-Tracks {bitmap'} e = elim (pmm_alloc_frame_lem bitmap t.shape) [
    | inl g ↦ absurd (granted g (some-pair (sym g.returns ∙ e)))
    | inr r ↦ refused r (some-pair (sym r.returns ∙ e)).0
  ]
    where
      granted :
          (g : Granted 0 bitmap (pmm_alloc_frame bitmap))
          → (g.after ≡ bitmap') × (g.frame * pmm_block_size ≡ 0)
          → ⊥
      granted g (same_bitmap, zero_addr) = let m = mark-Tracks t g in let above = m.2 in omega arith

      refused :
          Refused 0 bitmap (pmm_alloc_frame bitmap)
          → bitmap ≡ bitmap'
          → Tracks bitmap' owned × ((m : ℕ) → 256 ≤ m → m < pmm_block → owned m ≡ true)
      refused r same_bitmap =
          (rw (← same_bitmap) t, λ m low high. ground (arith, t.agrees m, r.full m))

  free-Tracks :
      {bitmap' : Bitmap} (n : ℕ)
      → owned n ≡ true
      → pmm_free_frame bitmap (n * pmm_block_size) ≡ some bitmap'
      → Tracks bitmap' (update owned n false)
  free-Tracks {bitmap'} n own e =
      freed (pmm_free_frame_lem bitmap (n * pmm_block_size) t.shape (omega (arith, t.apart n own)))
    where
      freed :
          ((after : Bitmap) × (pmm_free_frame bitmap (n * pmm_block_size) ≡ some after)
            × Marks (n * pmm_block_size / pmm_block_size) 0 bitmap after)
          → Tracks bitmap' (update owned n false)
      freed (after, returns, marks) =
          let same : after ≡ bitmap' = cc in
          rw (← same) record {
            shape = marks.shape;
            agrees = λ m. ground (arith, marks.marked m, t.agrees m, t.apart n own);
            apart = λ m p. ground (arith, t.apart m);
          }

boot-Tracks : {bitmap : Bitmap} → init_pmm ≡ some bitmap → Tracks bitmap (λ _. false)
boot-Tracks {bitmap} e = start init_pmm_lem
  where
    start :
        ((after : Bitmap) × (init_pmm ≡ some after)
          × IsBitmap after
          × ((m : ℕ) → frame_bit after m ≡ (if ltb m 256 then 1 else 0)))
        → Tracks bitmap (λ _. false)
    start (after, returns, shape, agrees) =
        let same : after ≡ bitmap = cc in
        rw (← same) record {
          shape = shape;
          agrees = λ m. ground (arith, agrees m);
          apart = λ m p. absurd (cc);
        }

-- In every state that allocation and freeing lead to, the bitmap is that of the owned frames and
-- the reserved first MiB.
pub Reach-Tracks : {bitmap : Bitmap} {owned : Owned} → Reach bitmap owned → Tracks bitmap owned
Reach-Tracks (boot e) = boot-Tracks e
Reach-Tracks (alloc n r e ne) = (alloc-Tracks (Reach-Tracks r) n e ne).0
Reach-Tracks (refuse r e) = (refuse-Tracks (Reach-Tracks r) e).0
Reach-Tracks (free n r own e) = free-Tracks (Reach-Tracks r) n own e

-- However frames were allocated and freed since boot, an address other than 0 that
-- `pmm_alloc_frame` returns is a frame that nobody owns, above the first MiB and inside the bitmap.
pub alloc_fresh :
    {bitmap bitmap' : Bitmap} {owned : Owned} (n : ℕ)
    → Reach bitmap owned
    → pmm_alloc_frame bitmap ≡ some (bitmap', n * pmm_block_size)
    → n ≢ 0
    → (owned n ≡ false) × (256 ≤ n) × (n < pmm_block)
alloc_fresh n r e ne =
    let fresh = alloc-Tracks (Reach-Tracks r) n e ne in (fresh.1, fresh.2, fresh.3)

-- It returns 0 only when every frame above the first MiB is owned.
pub alloc_exhausted :
    {bitmap bitmap' : Bitmap} {owned : Owned}
    → Reach bitmap owned
    → pmm_alloc_frame bitmap ≡ some (bitmap', 0)
    → (m : ℕ) → 256 ≤ m
    → m < pmm_block
    → owned m ≡ true
alloc_exhausted r e = (refuse-Tracks (Reach-Tracks r) e).1
