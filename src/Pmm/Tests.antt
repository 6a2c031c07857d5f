-- ===== src/Pmm/Tests.antt =====
-- Runs of the frame allocator from boot, and its theorems at concrete inputs.
use first_kernel.Base.{◌≤◌, ◌<◌, ◌≡◌, ◌⊎◌, refl, ◌∷◌, ◌++◌, some, replicate, Bool, false, arith}
use first_kernel.Pmm.{
  Bitmap, pmm_block, init_pmm, reserve, pmm_set_bit, pmm_clear_bit, pmm_test_bit, alloc_from,
  pmm_alloc_frame, pmm_free_frame,
}
use first_kernel.Pmm.Frames.{Granted, Refused, pmm_alloc_frame_lem}
use first_kernel.Pmm.Ownership.{boot, Tracks, Reach-Tracks, alloc_fresh}

-- The bitmap after boot, and after one allocation.
abbrev first_mib : Bitmap
first_mib = replicate 8 0xFFFF_FFFF ++ replicate 120 0

abbrev one_frame : Bitmap
one_frame = replicate 8 0xFFFF_FFFF ++ 1 ∷ replicate 119 0

boots : init_pmm ≡ some first_mib
unfolding init_pmm reserve pmm_set_bit
boots = refl

allocates : pmm_alloc_frame first_mib ≡ some (one_frame, 0x100000)
unfolding pmm_alloc_frame alloc_from pmm_test_bit pmm_set_bit
allocates = refl

frees : pmm_free_frame one_frame 0x100FFF ≡ some first_mib
unfolding pmm_free_frame pmm_clear_bit
frees = refl

full_bitmap : pmm_alloc_frame (replicate 128 0xFFFF_FFFF) ≡ some (replicate 128 0xFFFF_FFFF, 0)
unfolding pmm_alloc_frame alloc_from pmm_test_bit pmm_set_bit
full_bitmap = refl

pmm_alloc_frame_lem_example :
    Granted 0 first_mib (pmm_alloc_frame first_mib)
    ⊎ Refused 0 first_mib (pmm_alloc_frame first_mib)
pmm_alloc_frame_lem_example = pmm_alloc_frame_lem first_mib refl

Reach-Tracks_example : Tracks first_mib (λ _. false)
Reach-Tracks_example = Reach-Tracks (boot boots)

alloc_fresh_example : ◌≡◌ {A = Bool} false false × (256 ≤ 256) × (256 < pmm_block)
alloc_fresh_example =
    alloc_fresh {bitmap = first_mib} {bitmap' = one_frame} 256 (boot boots) allocates (omega arith)
