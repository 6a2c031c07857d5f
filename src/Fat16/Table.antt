-- ===== src/Fat16/Table.antt =====
-- The allocation table: what `find_free_cluster`, `get_next_cluster` and `set_fat_entry` do to the
-- sequence of its entries.
use first_kernel.Base.{
  ℕ, zero, suc, ◌+◌, ◌*◌, ◌/◌, ◌%◌, ◌^◌, ◌≤◌, ◌<◌, ◌≡◌, ◌≢◌, refl, ◌⊎◌, inl, inr, List, [], ◌∷◌,
  Option, some, Bool-cases, false, ◌==◌, ==_iff, length, get_or, get_elem?, set, All, arith,
  bit_or-shifted, length-set, get_elem?-eq-get_or, get_or_All, set-All,
}
use first_kernel.Fat16.Layout.{words, unwords}
use first_kernel.Fat16.Views.{
  IsByte, IsWord, words-unwords, length-words, words-IsWord, length-unwords, unwords-IsByte,
}
use first_kernel.Fat16.Volume.{
  Volume, read_sector, write_sector, get_next_cluster, free_from, find_free_cluster, set_fat_entry,
}

-- Every sector holds 512 bytes.
pub record IsVolume (v : Volume) : Type 0 where
  pub full : (k : ℕ) → length (v.sectors k) ≡ 512
  pub bytes : (k : ℕ) → All IsByte (v.sectors k)

-- The entries of one sector of the table, and of the first one.
abbrev pub fat_sector : Volume → ℕ → List ℕ
fat_sector v k = words (read_sector (50 + k) v)

abbrev pub fat : Volume → List ℕ
fat v = words (read_sector 50 v)

-- The entry of any cluster.
abbrev pub fat_entry : Volume → ℕ → ℕ
fat_entry v cluster = get_or (fat_sector v (cluster / 256)) (cluster % 256) 0

module _ (v : Volume) (valid : IsVolume v) where
  pub length-fat : length (fat v) ≡ 256
  length-fat = omega (arith, length-words (read_sector 50 v), valid.full 50)

  pub write_sector-IsVolume :
      (k : ℕ) (bytes : List ℕ)
      → length bytes ≡ 512
      → All IsByte bytes
      → IsVolume (write_sector k bytes v)
  write_sector-IsVolume k bytes h a = record {
    full = λ j. elim (Bool-cases (k == j)) [ inl e ↦ rw e h | inr e ↦ rw e (valid.full j) ];
    bytes = λ j. elim (Bool-cases (k == j)) [ inl e ↦ rw e a | inr e ↦ rw e (valid.bytes j) ];
  }

  -- On a cluster of the first sector `set_fat_entry` changes that entry and nothing else.
  pub set_fat_entry_lem :
      (c w : ℕ)
      → c < 256
      → IsWord w
      → let v' = write_sector 50 (unwords (set (fat v) c w)) v in
        (set_fat_entry c w v ≡ some v') × IsVolume v' × (fat v' ≡ set (fat v) c w)
  unfolding set_fat_entry
  set_fat_entry_lem c w h hw = (
    ground (arith, get_elem?-eq-get_or (fat v) c 0, length-fat),
    write_sector-IsVolume 50 (unwords (set (fat v) c w))
        (omega (arith, length-unwords (set (fat v) c w), length-set (fat v) c w, length-fat))
        (unwords-IsByte (set (fat v) c w)),
    words-unwords (set (fat v) c w)
        (set-All IsWord (fat v) c w (words-IsWord (read_sector 50 v) (valid.bytes 50)) hw),
  )

-- Entry `c` is the first free one from `i` on.
pub record FirstFree (fat_entries : List ℕ) (i j c : ℕ) : Type 0 where
  pub low : i ≤ c
  pub below : c < j
  pub free : get_or fat_entries c 0 ≡ 0
  pub first : (k : ℕ) → i ≤ k → k < c → get_or fat_entries k 0 ≢ 0

abbrev pub NoneFree : List ℕ → ℕ → ℕ → Type 0
NoneFree fat_entries i j = (k : ℕ) → i ≤ k → k < j → get_or fat_entries k 0 ≢ 0

-- What a search from entry `i` to entry `j - 1` returns.
abbrev pub Found : List ℕ → ℕ → ℕ → Option ℕ → Type 0
Found fat_entries i j result =
    ((c : ℕ) × FirstFree fat_entries i j c × (result ≡ some c))
    ⊎ (NoneFree fat_entries i j × (result ≡ some 0))

free_from_lem :
    (left i j : ℕ) (fat_entries : List ℕ)
    → i + left ≡ j
    → j ≤ length fat_entries
    → Found fat_entries i j (free_from left i fat_entries)
free_from_lem zero i j fat_entries e h =
    inr (λ k p q. absurd (omega arith), unfold free_from in refl)
free_from_lem (suc left) i j fat_entries e h = elim (Bool-cases (get_or fat_entries i 0 == 0)) [
  | inl free ↦ inl (
    i,
    record {
      low = omega arith;
      below = omega arith;
      free = (==_iff _ _).0 free;
      first = λ k p q. absurd (omega arith);
    },
    unfold free_from in ground (arith, here),
  )
  | inr used ↦
      rw (steps used) (extend used (free_from_lem left (i + 1) j fat_entries (omega arith) h))
]
  where
    here : get_elem? fat_entries i ≡ some (get_or fat_entries i 0)
    here = get_elem?-eq-get_or fat_entries i 0 (omega arith)

    steps :
        (get_or fat_entries i 0 == 0) ≡ false
        → free_from (suc left) i fat_entries ≡ free_from left (i + 1) fat_entries
    steps used = unfold free_from in ground (arith, here)

    used_from :
        (k : ℕ)
        → (get_or fat_entries i 0 == 0) ≡ false
        → NoneFree fat_entries (i + 1) k
        → NoneFree fat_entries i k
    used_from k used rest m p q = elim (Bool-cases (i == m)) [
      | inl same ↦ rw (← (==_iff i m).0 same) (ground arith)
      | inr other ↦ rest m (ground arith) q
    ]

    extend :
        {result : Option ℕ}
        → (get_or fat_entries i 0 == 0) ≡ false
        → Found fat_entries (i + 1) j result
        → Found fat_entries i j result
    extend used (inl (c, f, r)) = inl (
      c,
      record {
        low = omega (arith, f.low);
        below = f.below;
        free = f.free;
        first = used_from c used f.first;
      },
      r,
    )
    extend used (inr (n, r)) = inr (used_from j used n, r)

-- `find_free_cluster` faults nowhere and returns the first cluster from 2 to 255 whose entry is 0,
-- or 0 if there is none.
pub find_free_cluster_lem : (v : Volume) → IsVolume v → Found (fat v) 2 256 (find_free_cluster v)
unfolding find_free_cluster
find_free_cluster_lem v valid =
    free_from_lem 254 2 256 (fat v) (omega arith) (omega (arith, length-fat v valid))

-- The two bytes of an entry, in the sector and in the view.
bytes_of_word :
    (bytes : List ℕ) (i : ℕ)
    → i * 2 + 1 < length bytes
    → get_or (words bytes) i 0 ≡ get_or bytes (i * 2 + 1) 0 * 2 ^ 8 + get_or bytes (i * 2) 0
unfolding words
bytes_of_word [] i h = absurd (omega arith)
bytes_of_word (lo ∷ []) zero h = absurd (omega arith)
bytes_of_word (lo ∷ []) (suc i) h = absurd (omega arith)
bytes_of_word (lo ∷ hi ∷ bytes) zero h = refl
bytes_of_word (lo ∷ hi ∷ bytes) (suc i) h = rw (low, high) (bytes_of_word bytes i (omega arith))
  where
    low : suc i * 2 ≡ suc (suc (i * 2))
    low = omega arith

    high : suc (suc (i * 2)) + 1 ≡ suc (suc (i * 2 + 1))
    high = omega arith

-- `get_next_cluster` faults nowhere and returns the entry of any cluster, in whichever sector of the
-- table it stands.
pub get_next_cluster_lem :
    (v : Volume) (cluster : ℕ)
    → IsVolume v
    → get_next_cluster v cluster ≡ some (fat_entry v cluster)
unfolding get_next_cluster
get_next_cluster_lem v cluster valid =
    rw (sector, offset)
      (ground (
        arith,
        valid.full (50 + cluster / 256),
        get_elem?-eq-get_or bytes (i * 2) 0,
        get_elem?-eq-get_or bytes (i * 2 + 1) 0,
        byte (i * 2),
        byte (i * 2 + 1),
        bit_or-shifted 8 (get_or bytes (i * 2 + 1) 0) (get_or bytes (i * 2) 0),
        bytes_of_word bytes i,
      ))
  where
    bytes : List ℕ
    bytes = v.sectors (50 + cluster / 256)

    i : ℕ
    i = cluster % 256

    sector : cluster * 2 / 512 ≡ cluster / 256
    sector = omega arith

    offset : cluster * 2 % 512 ≡ cluster % 256 * 2
    offset = omega arith

    byte : (k : ℕ) → get_or bytes k 0 < 2 ^ 8
    byte k = get_or_All IsByte bytes k 0 (valid.bytes (50 + cluster / 256)) (omega arith)
