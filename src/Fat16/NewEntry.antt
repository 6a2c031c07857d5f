-- ===== src/Fat16/NewEntry.antt =====
-- The fields of an entry that `write_file` or `make_directory` has filled in.
use first_kernel.Base.{
  ℕ, ◌/◌, ◌%◌, ◌^◌, ◌<◌, ◌≡◌, ◌∙◌, get_or, set, All, arith, length-set, get_or-set_self,
  get_or-set_ne, set-All,
}
use first_kernel.Fat16.Layout.{
  DirEntry, attributes, cluster_low, size, set_attributes, set_cluster_low, set_size,
}
use first_kernel.Fat16.Views.{
  IsByte, IsWord, IsEntry, name-set_cluster_low, name-set_size, cluster_low-set_cluster_low,
}

-- Size, attributes and first cluster, written in this order.
abbrev pub new_entry : ℕ → ℕ → ℕ → DirEntry → DirEntry
new_entry len attr cluster e = set_cluster_low (set_attributes (set_size e len) attr) cluster

module _ (len attr cluster : ℕ) (e : DirEntry) (shape : IsEntry e) where
  sized : IsEntry (set_size e len)
  sized = simp length-set shape

  pub new_entry-IsEntry : IsEntry (new_entry len attr cluster e)
  new_entry-IsEntry = simp length-set shape

  pub new_entry-IsByte : All IsByte e → IsByte attr → All IsByte (new_entry len attr cluster e)
  new_entry-IsByte a b =
      set-All IsByte _ 27 _
        (set-All IsByte _ 26 _
          (set-All IsByte _ 11 attr
            (set-All IsByte _ 31 _
              (set-All IsByte _ 30 _
                (set-All IsByte _ 29 _ (set-All IsByte e 28 _ a (omega arith)) (omega arith))
                (omega arith))
              (omega arith))
            b)
          (omega arith))
        (omega arith)

  pub new_entry-name : (j : ℕ) → j < 11 → get_or (new_entry len attr cluster e) j 0 ≡ get_or e j 0
  new_entry-name j h =
      name-set_cluster_low (set_attributes (set_size e len) attr) cluster j (omega arith)
      ∙ get_or-set_ne (set_size e len) 11 j attr 0 (omega arith)
      ∙ name-set_size e len j (omega arith)

  pub attributes-new_entry : attributes (new_entry len attr cluster e) ≡ attr
  attributes-new_entry =
      name-set_cluster_low (set_attributes (set_size e len) attr) cluster 11 (omega arith)
      ∙ get_or-set_self (set_size e len) 11 attr 0 (omega (arith, sized))

  pub cluster_low-new_entry : IsWord cluster → cluster_low (new_entry len attr cluster e) ≡ cluster
  cluster_low-new_entry h =
      cluster_low-set_cluster_low (set_attributes (set_size e len) attr)
        (length-set (set_size e len) 11 attr ∙ sized) cluster h

  -- A byte of the size, under the later writes.
  size_byte :
      (j : ℕ) → 27 < j → get_or (new_entry len attr cluster e) j 0 ≡ get_or (set_size e len) j 0
  size_byte j h =
      get_or-set_ne (set (set_attributes (set_size e len) attr) 26 (cluster % 2 ^ 8)) 27 j
        (cluster / 2 ^ 8 % 2 ^ 8) 0 (omega arith)
      ∙ get_or-set_ne (set_attributes (set_size e len) attr) 26 j (cluster % 2 ^ 8) 0 (omega arith)
      ∙ get_or-set_ne (set_size e len) 11 j attr 0 (omega arith)

  b0 : ℕ
  b0 = len % 2 ^ 8

  b1 : ℕ
  b1 = len / 2 ^ 8 % 2 ^ 8

  b2 : ℕ
  b2 = len / 2 ^ 16 % 2 ^ 8

  b3 : ℕ
  b3 = len / 2 ^ 24 % 2 ^ 8

  e0 : DirEntry
  e0 = set e 28 b0

  e1 : DirEntry
  e1 = set e0 29 b1

  e2 : DirEntry
  e2 = set e1 30 b2

  shape0 : IsEntry e0
  unfolding e0
  shape0 = simp length-set shape

  shape1 : IsEntry e1
  unfolding e1
  shape1 = rw length-set shape0

  shape2 : IsEntry e2
  unfolding e2
  shape2 = rw length-set shape1

  size-set_size : size (set_size e len) ≡ len % 2 ^ 32
  unfolding e0 e1 e2 b0 b1 b2 b3
  size-set_size = omega (
    arith,
    get_or-set_self e2 31 b3 0 (omega (arith, shape2)),
    get_or-set_ne e2 31 30 b3 0 (omega arith) ∙ get_or-set_self e1 30 b2 0 (omega (arith, shape1)),
    get_or-set_ne e2 31 29 b3 0 (omega arith)
        ∙ get_or-set_ne e1 30 29 b2 0 (omega arith)
        ∙ get_or-set_self e0 29 b1 0 (omega (arith, shape0)),
    get_or-set_ne e2 31 28 b3 0 (omega arith)
        ∙ get_or-set_ne e1 30 28 b2 0 (omega arith)
        ∙ get_or-set_ne e0 29 28 b1 0 (omega arith)
        ∙ get_or-set_self e 28 b0 0 (omega (arith, shape)),
  )

  -- The size is the length as an `unsigned int`.
  pub size-new_entry : size (new_entry len attr cluster e) ≡ len % 2 ^ 32
  size-new_entry =
      rw
        (
          size_byte 28 (omega arith),
          size_byte 29 (omega arith),
          size_byte 30 (omega arith),
          size_byte 31 (omega arith),
        )
        size-set_size
