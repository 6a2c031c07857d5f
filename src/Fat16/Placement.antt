-- ===== src/Fat16/Placement.antt =====
-- Where things lie on the disk: the table, the current directory and a free cluster.
use first_kernel.Base.{ℕ, ◌+◌, ◌≤◌, ◌<◌, ◌≡◌, ◌≢◌, ◌⊎◌, inl, inr, ap, ◌∙◌, get_or, arith}
use first_kernel.Fat16.Volume.{Volume, cluster_to_sector, directory_sector}
use first_kernel.Fat16.Table.{IsVolume, fat}

-- The current directory is the root, or a cluster of the table's first sector that is in use.
pub record IsReady (v : Volume) : Type 0 where
  pub valid : IsVolume v
  pub home :
      (v.current_dir_cluster ≡ 0)
      ⊎ ((2 ≤ v.current_dir_cluster)
          × (v.current_dir_cluster < 256)
          × (get_or (fat v) v.current_dir_cluster 0 ≢ 0))

pub cluster_to_sector_lem : (c : ℕ) → 2 ≤ c → cluster_to_sector c ≡ 98 + c
unfolding cluster_to_sector
cluster_to_sector_lem c h = omega arith

pub directory-ne-table : (v : Volume) → IsReady v → directory_sector v ≢ 50
unfolding directory_sector cluster_to_sector
directory-ne-table v r = λ e. ground (arith, r.home)

pub directory-ne-free :
    (v : Volume) (c : ℕ)
    → IsReady v
    → 2 ≤ c
    → get_or (fat v) c 0 ≡ 0
    → directory_sector v ≢ cluster_to_sector c
unfolding directory_sector cluster_to_sector
directory-ne-free v c r h free = λ e. elim r.home [
  | inl root ↦ ground arith
  | inr (low, high, busy) ↦ busy (ap (λ (k : ℕ). get_or (fat v) k 0) (ground arith) ∙ free)
]

pub cluster-ne-table : (c : ℕ) → 2 ≤ c → cluster_to_sector c ≢ 50
unfolding cluster_to_sector
cluster-ne-table c h = λ e. omega arith
