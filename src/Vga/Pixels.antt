-- ===== src/Vga/Pixels.antt =====
-- What can be read back of the pixels that were put.
use first_kernel.Base.{◌-◌, ℕ, ◌+◌, ◌%◌, ◌^◌}

-- The distance of two coordinates, where the second may be negative.
abbrev pub distance : ℕ → ℕ → ℕ
distance from to = (to + 2 ^ 32 - from) % 2 ^ 32
