-- ===== src/Fat16/Release.antt =====
-- The loop of `remove_file` over the clusters of a chain.
use first_kernel.Base.{
  ℕ, zero, suc, ◌+◌, ◌≤◌, ◌<◌, ◌≡◌, ◌≢◌, refl, sym, ◌∙◌, List, [], ◌∷◌, some, Bool-cases, true,
  false, ◌==◌, ==_ne, leb, if◌then◌else◌, length, get_or, set, All, arith, length-set,
  get_elem?-eq-get_or, get_or_All, set-All, inl, inr, ◌⊎◌,
}
use first_kernel.Fat16.Layout.{words, unwords}
use first_kernel.Fat16.Views.{IsWord, words-unwords, words-IsWord, length-unwords, unwords-IsByte}
use first_kernel.Fat16.Volume.{Volume, read_sector, write_sector, in_chain}
use first_kernel.Fat16.Table.{IsVolume, fat, length-fat, write_sector-IsVolume}
use first_kernel.Fat16.Chains.{Chain, mem, Chain-head-Apart, Chain-set}
use first_kernel.Fat16.Files.{clear_chain, release_chain}

-- The specification: the entries of `cs` become 0.
abbrev pub clear_all : List ℕ → List ℕ → List ℕ
clear_all [] fat_entries = fat_entries
clear_all (k ∷ cs) fat_entries = clear_all cs (set fat_entries k 0)

pub length-clear_all :
    (cs fat_entries : List ℕ) → length (clear_all cs fat_entries) ≡ length fat_entries
length-clear_all [] fat_entries = refl
length-clear_all (k ∷ cs) fat_entries =
    length-clear_all cs (set fat_entries k 0) ∙ length-set fat_entries k 0

set-zero :
    (fat_entries : List ℕ) (k i : ℕ)
    → get_or (set fat_entries k 0) i 0 ≡ (if i == k then 0 else get_or fat_entries i 0)
set-zero [] k i = ground arith
set-zero (w ∷ ws) zero zero = refl
set-zero (w ∷ ws) zero (suc i) = ground arith
set-zero (w ∷ ws) (suc k) zero = ground arith
set-zero (w ∷ ws) (suc k) (suc i) = set-zero ws k i ∙ ground arith

pub get_or-clear_all :
    (cs fat_entries : List ℕ) (i : ℕ)
    → get_or (clear_all cs fat_entries) i 0 ≡ (if mem i cs then 0 else get_or fat_entries i 0)
get_or-clear_all [] fat_entries i = refl
get_or-clear_all (k ∷ cs) fat_entries i =
    ground (arith, get_or-clear_all cs (set fat_entries k 0) i, set-zero fat_entries k i)

module _ (fuel current : ℕ) (fat_entries : List ℕ) where
  clear_chain-end :
      in_chain current ≡ false → clear_chain (suc fuel) current fat_entries ≡ some fat_entries
  unfolding clear_chain
  clear_chain-end h = ground arith

  clear_chain-step :
      in_chain current ≡ true
      → current < length fat_entries
      → clear_chain (suc fuel) current fat_entries
        ≡ clear_chain fuel (get_or fat_entries current 0) (set fat_entries current 0)
  unfolding clear_chain
  clear_chain-step h below = ground (arith, get_elem?-eq-get_or fat_entries current 0 below)

-- A chain that ends is cleared, entry for entry.
pub clear_chain_lem :
    (cs : List ℕ) (fuel c : ℕ) (fat_entries : List ℕ)
    → length cs < fuel
    → Chain fat_entries c cs
    → clear_chain fuel c fat_entries ≡ some (clear_all cs fat_entries)
clear_chain_lem cs zero c fat_entries h p = absurd (omega arith)
clear_chain_lem [] (suc fuel) c fat_entries h p = clear_chain-end fuel c fat_entries p
clear_chain_lem (k ∷ cs) (suc fuel) c fat_entries h (e, inside, bound, rest) = rw e (
    clear_chain-step fuel k fat_entries inside bound
    ∙ clear_chain_lem cs fuel (get_or fat_entries k 0) (set fat_entries k 0) (omega arith) (
        Chain-set fat_entries k 0 (get_or fat_entries k 0) cs
          (Chain-head-Apart fat_entries k cs (refl, inside, bound, rest)) rest))

-- The entries in use, which the loop uses up.
used : List ℕ → ℕ
used [] = 0
used (w ∷ ws) = if w == 0 then used ws else suc (used ws)

used-le : (ws : List ℕ) → used ws ≤ length ws
unfolding used
used-le [] = omega arith
used-le (w ∷ ws) = ground (arith, used-le ws)

used-set : (ws : List ℕ) (k : ℕ) → get_or ws k 0 ≢ 0 → used ws ≡ suc (used (set ws k 0))
unfolding used
used-set [] k h = absurd (h refl)
used-set (w ∷ ws) zero h = ground arith
used-set (w ∷ ws) (suc k) h = ground (arith, used-set ws k h)

-- A value that leads nowhere outside the sector: a cluster of it, or an end mark.
abbrev pub StaysInside : ℕ → Type 0
StaysInside w = (w < 256) ⊎ (0xFFF8 ≤ w)

clear_chain-ends :
    (fuel c : ℕ) (fat_entries : List ℕ)
    → length fat_entries ≡ 256
    → All StaysInside fat_entries
    → StaysInside c
    → used fat_entries + 1 < fuel
    → (after : List ℕ) × (clear_chain fuel c fat_entries ≡ some after)
clear_chain-ends zero c fat_entries n a s h = absurd (omega arith)
clear_chain-ends (suc zero) c fat_entries n a s h = absurd (omega arith)
clear_chain-ends (suc (suc fuel)) c fat_entries n a s h = elim (Bool-cases (in_chain c)) [
  | inl inside ↦
      rw (clear_chain-step (suc fuel) c fat_entries inside (below inside))
        (elim (Bool-cases (next == 0)) [
          | inl stops ↦
              (set fat_entries c 0, clear_chain-end fuel next (set fat_entries c 0) (ground arith))
          | inr goes ↦
              clear_chain-ends (suc fuel) next (set fat_entries c 0)
                (length-set fat_entries c 0 ∙ n)
                (set-All StaysInside fat_entries c 0 a (inl (omega arith)))
                (get_or_All StaysInside fat_entries c 0 a (inl (omega arith)))
                (ground (arith, used-set fat_entries c))
        ])
  | inr outside ↦ (fat_entries, clear_chain-end (suc fuel) c fat_entries outside)
]
  where
    next : ℕ
    next = get_or fat_entries c 0

    below : in_chain c ≡ true → c < length fat_entries
    below inside = ground arith

module _ (start : ℕ) (v : Volume) where
  release_chain-cluster :
      {after : List ℕ}
      → leb 2 start ≡ true
      → clear_chain 258 start (fat v) ≡ some after
      → release_chain start v ≡ some (write_sector 50 (unwords after) v)
  unfolding release_chain
  release_chain-cluster h e = ground arith

  release_chain-none : leb 2 start ≡ false → release_chain start v ≡ some v
  unfolding release_chain
  release_chain-none h = ground arith

-- The loop of `remove_file` ends on every table whose entries stay inside the sector, also where the
-- chain runs into a cycle: the fuel of `release_chain` is enough.
pub release_chain-ends :
    (v : Volume) (start : ℕ)
    → IsVolume v
    → All StaysInside (fat v)
    → StaysInside start
    → (v' : Volume) × (release_chain start v ≡ some v')
release_chain-ends v start valid a s = elim (Bool-cases (leb 2 start)) [
  | inl cluster ↦ clears cluster (
      clear_chain-ends 258 start (fat v) (length-fat v valid) a s
        (omega (arith, used-le (fat v), length-fat v valid)))
  | inr unused ↦ (v, release_chain-none start v unused)
]
  where
    clears :
        leb 2 start ≡ true
        → ((after : List ℕ) × (clear_chain 258 start (fat v) ≡ some after))
        → (v' : Volume) × (release_chain start v ≡ some v')
    clears cluster (after, e) =
        (write_sector 50 (unwords after) v, release_chain-cluster start v cluster e)

-- A chain has at most one cluster more than the table has entries in use.
Chain-le-used :
    (cs : List ℕ) (c : ℕ) (fat_entries : List ℕ)
    → Chain fat_entries c cs
    → length cs ≤ used fat_entries + 1
Chain-le-used [] c fat_entries p = omega arith
Chain-le-used (k ∷ []) c fat_entries p = omega arith
Chain-le-used (k ∷ j ∷ cs) c fat_entries (e, inside, bound, rest) = ground (
  arith,
  used-set fat_entries k,
  rest.0,
  rest.1,
  Chain-le-used (j ∷ cs) (get_or fat_entries k 0) (set fat_entries k 0) (
      Chain-set fat_entries k 0 (get_or fat_entries k 0) (j ∷ cs)
        (Chain-head-Apart fat_entries k (j ∷ cs) (refl, inside, bound, rest)) rest),
)

clear_all-IsWord :
    (cs fat_entries : List ℕ) → All IsWord fat_entries → All IsWord (clear_all cs fat_entries)
clear_all-IsWord [] fat_entries a = a
clear_all-IsWord (k ∷ cs) fat_entries a =
    clear_all-IsWord cs (set fat_entries k 0) (set-All IsWord fat_entries k 0 a (omega arith))

-- What freeing the clusters `cs` leaves.
pub record Freed (cs : List ℕ) (v v' : Volume) : Type 0 where
  pub valid : IsVolume v'
  pub cleared : (k : ℕ) → get_or (fat v') k 0 ≡ (if mem k cs then 0 else get_or (fat v) k 0)
  pub others : (k : ℕ) → k ≢ 50 → v'.sectors k ≡ v.sectors k
  pub stays : v'.current_dir_cluster ≡ v.current_dir_cluster
  pub quiet : v'.console ≡ v.console

-- A chain that ends is freed: exactly its entries become 0.
pub release_chain-frees :
    (cs : List ℕ) (start : ℕ) (v : Volume)
    → IsVolume v
    → Chain (fat v) start cs
    → (v' : Volume) × (release_chain start v ≡ some v') × Freed cs v v'
release_chain-frees cs start v valid chain = elim (Bool-cases (leb 2 start)) [
  | inl cluster ↦ (
    write_sector 50 (unwords after) v,
    release_chain-cluster start v cluster (
        clear_chain_lem cs 258 start (fat v)
          (omega (arith, Chain-le-used cs start (fat v) chain, used-le (fat v), length-fat v valid))
          chain),
    record {
      valid =
          write_sector-IsVolume v valid 50 (unwords after)
            (omega (arith, length-unwords after, length-clear_all cs (fat v), length-fat v valid))
            (unwords-IsByte after);
      cleared = λ k. rw same_words (get_or-clear_all cs (fat v) k);
      others = λ k ne. rw (==_ne 50 k (λ e. ne (sym e)));
      stays = refl;
      quiet = refl;
    },
  )
  | inr unused ↦ (
    v,
    release_chain-none start v unused,
    record {
      valid = valid;
      cleared = λ k. nothing unused cs chain k;
      others = λ k ne. refl;
      stays = refl;
      quiet = refl;
    },
  )
]
  where
    after : List ℕ
    after = clear_all cs (fat v)

    same_words : words (unwords after) ≡ clear_all cs (fat v)
    same_words =
        words-unwords after
          (clear_all-IsWord cs (fat v) (words-IsWord (read_sector 50 v) (valid.bytes 50)))

    nothing :
        leb 2 start ≡ false
        → (cs : List ℕ) → Chain (fat v) start cs
        → (k : ℕ) → get_or (fat v) k 0 ≡ (if mem k cs then 0 else get_or (fat v) k 0)
    nothing unused [] p k = refl
    nothing unused (j ∷ cs) p k = absurd (ground arith)
