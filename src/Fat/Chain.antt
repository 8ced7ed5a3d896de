-- ===== src/Fat/Chain.antt =====
-- Cluster chains: stage2/FAT16/chain.c, load_clusterd_entry.c, and `read_cluster` of
-- fat16_helpers.c. The array of a chain is kept as a list beside the memory, and so is the loaded
-- file allocation table, as a function of the cluster.
pub mod Follow
use my_operating_system.Base.{
  ℕ, zero, suc, ◌+◌, ◌*◌, ◌/◌, ◌^◌, Bool, true, false, Option, none, some, List, [], ◌∷◌, ◌++◌,
  ◌&&◌, ◌||◌, ltb, leb, ◌==◌, if◌then◌else◌, u16, u32,
}
use my_operating_system.Io.{Device}
use my_operating_system.Fat.{
  Fat16, cluster_to_lba, invalid_lba, chain_traversal_fail, memory_allocation_fail,
}
use my_operating_system.Machine.{
  M, pure, ◌>>=◌, ◌>>◌, call_zalloc, call_realloc, call_free, follow, load_word, fat16_ok,
  fat16_fail, call_pio28_read,
}

-- `Fat16` with what its pointers lead to: the table that `load_fat` read, and the address of the root
-- directory, with the number of its entries from the boot sector.
pub record Volume : Type 0 where
  pub layout : Fat16
  pub table : ℕ → ℕ
  pub root_dir : ℕ
  pub root_dir_entries : ℕ

abbrev pub fat_eoc_start : ℕ
fat_eoc_start = 0xFFF8

abbrev pub fat_bad_sector : ℕ
fat_bad_sector = 0xFFF7

abbrev pub fat_free_sector : ℕ
fat_free_sector = 0

-- `ClusterChain` at its address; `clusters` is what stands at the pointer `chain`.
pub record ClusterChain : Type 0 where
  pub address : ℕ
  pub cluster_count : ℕ
  pub chain : ℕ
  pub clusters : List ℕ

abbrev pub fat_entries : Volume → ℕ
fat_entries fat = fat.layout.fat_bytes / 2

-- `free(chain->chain); free(chain); return NULL;`
unfoldable pub drop_chain : ClusterChain → M (Option ClusterChain)
unfolding call_free
drop_chain c = do call_free c.chain; call_free c.address; pure none

-- Lines 45 to 49.
unfoldable pub finish_chain : ClusterChain → M (Option ClusterChain)
unfolding call_free
finish_chain c s =
    if c.cluster_count == 0 then (do call_free c.address; pure none) s else some (some c, s)

-- The loop of `traverse_chain`, at the cluster `current`.
unfoldable pub traverse : ℕ → Volume → ℕ → ClusterChain → M (Option ClusterChain)
traverse zero fat current c = λ s. none
traverse (suc f) fat current c =
    let count = u16 (c.cluster_count + 1) in
    let extend : M (Option ClusterChain) = (do
      p ← call_realloc c.chain (count * 2)
      elim (p == 0) [
        | true ↦ drop_chain (record c { cluster_count = count; chain = 0 })
        | false ↦
            traverse f fat (fat.table current) (record c {
              cluster_count = count;
              chain = p;
              clusters = c.clusters ++ (current ∷ []);
            })
      ]) in
    if ltb current fat_eoc_start && ltb c.cluster_count (fat_entries fat)
    then (if (current == fat_bad_sector) || (current == fat_free_sector)
        then drop_chain c
        else if leb (fat_entries fat) current
        then drop_chain c
        else extend)
    else finish_chain c

-- `sizeof(ClusterChain)` is 8.
unfoldable pub traverse_chain : ℕ → Volume → ℕ → M (Option ClusterChain)
traverse_chain fuel fat chain_start = do
  p ← call_zalloc 8
  follow p
  traverse fuel fat chain_start
      (record { address = p; cluster_count = 0; chain = 0; clusters = [] })

module _ (dev : Device) where
  -- The result is true on the error.
  unfoldable pub read_cluster : Volume → ℕ → ℕ → M Bool
  unfolding call_pio28_read
  read_cluster fat cluster dest s =
      let lba = cluster_to_lba fat.layout cluster in
      if lba == invalid_lba
      then some (true, s)
      else (do call_pio28_read dev dest fat.layout.sectors_per_cluster lba; pure false) s

  -- The loop over the clusters, with `i` behind.
  unfoldable pub load_clusters : Volume → List ℕ → ℕ → ℕ → M (Unit {0})
  load_clusters fat [] i destination = pure tt
  load_clusters fat (c ∷ cs) i destination = do
    failed ←
        read_cluster fat c
          (u32 (destination + i * fat.layout.sectors_per_cluster * fat.layout.bytes_per_sector))
    load_clusters fat cs (i + 1) destination

  unfoldable pub load_cluster_chain : Volume → ClusterChain → ℕ → M ℕ
  load_cluster_chain fat chain destination = do
    load_clusters fat chain.clusters 0 destination
    pure destination

  -- Lines 15 to 34, with the chain at hand.
  unfoldable pub load_chain : Volume → Option ClusterChain → M ℕ
  load_chain fat none = do fat16_fail chain_traversal_fail; pure 0
  load_chain fat (some chain) = do
    let total =
        u32 (chain.cluster_count * fat.layout.sectors_per_cluster * fat.layout.bytes_per_sector)
    dest ← call_zalloc total
    elim (dest == 0) [
      | true ↦ do
        call_free chain.chain
        call_free chain.address
        fat16_fail memory_allocation_fail
        pure 0
      | false ↦ do
        d ← load_cluster_chain fat chain dest
        call_free chain.chain
        call_free chain.address
        fat16_ok
        pure dest
    ]

  -- `first_cluster_low` is the word at offset 26 of the directory entry.
  unfoldable pub load_clustered_entry : ℕ → Volume → ℕ → M ℕ
  load_clustered_entry fuel fat entry = do
    start ← load_word (entry + 26)
    chain ← traverse_chain fuel fat start
    load_chain fat chain
