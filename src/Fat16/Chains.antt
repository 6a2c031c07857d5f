-- ===== src/Fat16/Chains.antt =====
-- Chains of clusters in the table, and the clusters that they visit.
use first_kernel.Base.{
  ℕ, suc, ◌<◌, ◌≡◌, ◌≢◌, refl, ap, sym, ◌∙◌, List, [], ◌∷◌, Bool, true, false, ◌==◌, ◌||◌, length,
  get_or, set, arith, length-set, get_or-set_ne,
}
use first_kernel.Fat16.Volume.{in_chain}

-- From cluster `c` the table leads through the clusters `cs`, all in its first sector, to an end
-- mark.
abbrev pub Chain : List ℕ → ℕ → List ℕ → Type 0
Chain fat_entries c [] = in_chain c ≡ false
Chain fat_entries c (k ∷ cs) =
    (c ≡ k)
    × (in_chain k ≡ true)
    × (k < length fat_entries)
    × Chain fat_entries (get_or fat_entries k 0) cs

abbrev pub Apart : ℕ → List ℕ → Type 0
Apart k [] = Unit
Apart k (j ∷ cs) = (k ≢ j) × Apart k cs

abbrev pub mem : ℕ → List ℕ → Bool
mem k [] = false
mem k (j ∷ cs) = (k == j) || mem k cs

Chain-length :
    (fat_entries : List ℕ) (c : ℕ) (xs ys : List ℕ)
    → Chain fat_entries c xs
    → Chain fat_entries c ys
    → length xs ≡ length ys
Chain-length fat_entries c [] [] p q = refl
Chain-length fat_entries c [] (y ∷ ys) p (e, q, _, r) = absurd (ground arith)
Chain-length fat_entries c (x ∷ xs) [] (e, p, _, r) q = absurd (ground arith)
Chain-length fat_entries c (x ∷ xs) (y ∷ ys) (e, p, _, r) (e', q, _, r') =
    ap suc (Chain-length fat_entries (get_or fat_entries x 0) xs ys r (rw (sym e ∙ e') r'))

-- Clusters nearer to the end than `k` differ from `k`.
Chain-Apart :
    (fat_entries : List ℕ) (k : ℕ) (whole : List ℕ)
    → Chain fat_entries k whole
    → (c : ℕ) (cs : List ℕ) → length cs < length whole
    → Chain fat_entries c cs
    → Apart k cs
Chain-Apart fat_entries k whole w c [] h p = tt
Chain-Apart fat_entries k whole w c (j ∷ cs) h (e, inside, bound, rest) = (
  λ same.
      absurd
        (omega (arith, Chain-length fat_entries k whole (j ∷ cs) w (same, inside, bound, rest))),
  Chain-Apart fat_entries k whole w (get_or fat_entries j 0) cs (omega arith) rest,
)

pub Chain-head-Apart :
    (fat_entries : List ℕ) (k : ℕ) (cs : List ℕ) → Chain fat_entries k (k ∷ cs) → Apart k cs
Chain-head-Apart fat_entries k cs (e, inside, bound, rest) =
    Chain-Apart fat_entries k (k ∷ cs) (e, inside, bound, rest) (get_or fat_entries k 0) cs
      (omega arith) rest

-- A write at another cluster leaves a chain as it is.
pub Chain-set :
    (fat_entries : List ℕ) (k w c : ℕ) (cs : List ℕ)
    → Apart k cs
    → Chain fat_entries c cs
    → Chain (set fat_entries k w) c cs
Chain-set fat_entries k w c [] a p = p
Chain-set fat_entries k w c (j ∷ cs) a (e, inside, bound, rest) = (
  e,
  inside,
  rw (length-set fat_entries k w) bound,
  rw (get_or-set_ne fat_entries k j w 0 a.0)
      (Chain-set fat_entries k w (get_or fat_entries j 0) cs a.1 rest),
)
