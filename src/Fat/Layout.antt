-- ===== src/Fat/Layout.antt =====
-- The areas of a volume, and rounding up to sectors and clusters.
use my_operating_system.Base.{ℕ, ◌+◌, ◌-◌, ◌*◌, ◌/◌, ◌^◌, ◌≤◌, ◌<◌, arith}
use my_operating_system.Fat.{Fat16, cluster_to_lba, bytes_to_sectors, sectors_to_clusters}

-- The number of sectors is the least that holds the bytes.
pub bytes_to_sectors_lem :
    (fat : Fat16) (bytes : ℕ)
    → 0 < fat.bytes_per_sector
    → (bytes ≤ bytes_to_sectors fat bytes * fat.bytes_per_sector)
      × (bytes_to_sectors fat bytes * fat.bytes_per_sector < bytes + fat.bytes_per_sector)
unfolding bytes_to_sectors
bytes_to_sectors_lem fat bytes h = (grind arith, grind arith)

sectors_to_clusters_lem :
    (fat : Fat16) (sectors : ℕ)
    → 0 < fat.sectors_per_cluster
    → sectors / fat.sectors_per_cluster + 1 < 2 ^ 16
    → (sectors ≤ sectors_to_clusters fat sectors * fat.sectors_per_cluster)
      × (sectors_to_clusters fat sectors * fat.sectors_per_cluster
          < sectors + fat.sectors_per_cluster)
unfolding sectors_to_clusters
sectors_to_clusters_lem fat sectors h small = (grind arith, grind arith)

mul_step : (a b s : ℕ) → a < b → a * s + s ≤ b * s
mul_step a b s h = grind arith

-- Different data clusters have different first blocks, a cluster's blocks end where the next
-- cluster's begin, and all lie behind the root directory, as long as the address does not wrap.
pub cluster_to_lba_lem :
    (fat : Fat16) (c d : ℕ)
    → 2 ≤ c
    → c < d
    → fat.data_start_lba + (d - 2) * fat.sectors_per_cluster < 2 ^ 32
    → (fat.data_start_lba ≤ cluster_to_lba fat c)
      × (cluster_to_lba fat c + fat.sectors_per_cluster ≤ cluster_to_lba fat d)
unfolding cluster_to_lba
cluster_to_lba_lem fat c d hc hd h = (
  ground (arith, mul_step (c - 2) (d - 2) fat.sectors_per_cluster),
  ground (arith, mul_step (c - 2) (d - 2) fat.sectors_per_cluster),
)
