-- ===== src/Fat/Chain/Follow.antt =====
-- What `traverse_chain` returns, and that it ends.
use my_operating_system.Base.{
  ℕ, zero, suc, ◌+◌, ◌*◌, ◌^◌, ◌≤◌, ◌<◌, ◌≡◌, ◌≢◌, ◌⊎◌, inl, inr, refl, arith, Bool, true, false,
  Option, none, some, List, [], ◌∷◌, ◌++◌, ◌&&◌, ◌||◌, ltb, leb, ◌==◌, if◌then◌else◌, u16,
  Bool-cases, length, length-append,
}
use mathlib.Core.Path.{subst}
use native.Mathlib.Decide.{dec_lt}
use my_operating_system.Memory.{Memory}
use my_operating_system.Heap.{Heap, realloc, zalloc, malloc, malloc_ready, free}
use my_operating_system.Machine.{
  Machine, M, ◌>>=◌, ◌>>◌, follow, call_realloc, call_free, call_zalloc,
}
use my_operating_system.Fat.Chain.{
  Volume, ClusterChain, fat_entries, fat_eoc_start, fat_bad_sector, fat_free_sector, drop_chain,
  finish_chain, traverse, traverse_chain,
}

-- A cluster that a chain may hold.
pub record IsData (fat : Volume) (c : ℕ) : Type 0 where
  pub used : c ≢ fat_free_sector
  pub good : c ≢ fat_bad_sector
  pub not_end : c < fat_eoc_start
  pub inside : c < fat_entries fat

-- The clusters that the table links from `start` on, up to the entry `end`.
pub data Links (fat : Volume) (start : ℕ) : List ℕ → ℕ → Type 0 where
  here : Links fat start [] start
  next :
      {cs : List ℕ} {c : ℕ}
      → Links fat start cs c
      → IsData fat c
      → Links fat start (cs ++ (c ∷ [])) (fat.table c)

-- A chain that follows the table from `start`, to an end mark or through as many clusters as the
-- table has entries.
pub record IsChain (fat : Volume) (start : ℕ) (c : ClusterChain) : Type 0 where
  pub end : ℕ
  pub links : Links fat start c.clusters end
  pub count : length c.clusters ≡ c.cluster_count
  pub nonempty : 0 < c.cluster_count
  pub complete : (fat_eoc_start ≤ end) ⊎ (fat_entries fat ≤ c.cluster_count)

-- Ends with no chain, or with one that is right.
abbrev pub Ends : Volume → ℕ → Option (Option ClusterChain × Machine) → Type 0
Ends fat start o =
    (r : Option ClusterChain) × (s : Machine) × (o ≡ some (r, s))
    × ((c : ClusterChain) → r ≡ some c → IsChain fat start c)

malloc-zero : (size : ℕ) (h : Heap) → u16 size ≡ 0 → (malloc size h).0 ≡ 0
unfolding malloc malloc_ready
malloc-zero size h e = rw e refl

realloc-zero : (p size : ℕ) (h : Heap) (m : Memory) → u16 size ≡ 0 → (realloc p size h m).0 ≡ 0
unfolding realloc
realloc-zero p size h m e = ground (arith, malloc-zero (u16 size) h)

module _ (fat : Volume) (start : ℕ) where
  drop-Ends : (c : ClusterChain) (s : Machine) → Ends fat start (drop_chain c s)
  unfolding drop_chain call_free
  drop-Ends c s = (none, _, refl, λ c e. cc)

  if-Ends :
      (b : Bool) (o o' : M (Option ClusterChain)) (s : Machine)
      → (b ≡ true → Ends fat start (o s))
      → (b ≡ false → Ends fat start (o' s))
      → Ends fat start ((if b then o else o') s)
  if-Ends true o o' s h h' = h refl
  if-Ends false o o' s h h' = h' refl

  null-Ends :
      (p : ℕ) (o o' : M (Option ClusterChain)) (s : Machine)
      → (p ≡ 0 → Ends fat start (o s))
      → (p ≢ 0 → Ends fat start (o' s))
      → Ends fat start
          ((elim (p == 0) as (λ _. M (Option ClusterChain)) [ true ↦ o | false ↦ o' ]) s)
  null-Ends p o o' s h h' = elim (Bool-cases (p == 0)) [
    | inl e ↦ rw e (h (ground arith))
    | inr e ↦ rw e (h' (ground arith))
  ]

  -- The state of the loop at the cluster `current`.
  record Loop (current : ℕ) (c : ClusterChain) : Type 0 where
    links : Links fat start c.clusters current
    count : length c.clusters ≡ c.cluster_count
    small : c.cluster_count < 2 ^ 15

  finish-Ends :
      (current : ℕ) (c : ClusterChain) (s : Machine)
      → Loop current c
      → (fat_eoc_start ≤ current) ⊎ (fat_entries fat ≤ c.cluster_count)
      → Ends fat start (finish_chain c s)
  unfolding finish_chain call_free
  finish-Ends current c s l end = elim (Bool-cases (c.cluster_count == 0)) [
    | inl e ↦ rw e (none, record s { heap = free c.address s.heap }, refl, λ c' q. cc)
    | inr e ↦
        rw e (some c, s, refl, λ c' q. subst (λ t. IsChain fat start t) (cc) (chain (ground arith)))
  ]
    where
      chain : c.cluster_count ≢ 0 → IsChain fat start c
      chain ne = record {
        end = current;
        links = l.links;
        count = l.count;
        nonempty = omega arith;
        complete = end;
      }

  -- One more cluster.
  Loop-next :
      (current p : ℕ) (c : ClusterChain)
      → Loop current c
      → IsData fat current
      → c.cluster_count + 1 < 2 ^ 15
      → Loop (fat.table current) (record c {
        cluster_count = u16 (c.cluster_count + 1);
        chain = p;
        clusters = c.clusters ++ (current ∷ []);
      })
  Loop-next current p c l d h = record {
    links = next l.links d;
    count = omega (arith, l.count, length-append c.clusters (current ∷ []));
    small = omega arith;
  }

  -- The 2^15th cluster would take 2^16 bytes, which are 0 in a `uint16_t`.
  room :
      (current : ℕ) (c : ClusterChain) (h : Heap) (m : Memory)
      → Loop current c
      → (realloc c.chain (u16 (c.cluster_count + 1) * 2) h m).0 ≢ 0
      → c.cluster_count + 1 < 2 ^ 15
  room current c h m l ne = elim (dec_lt (c.cluster_count + 1) (2 ^ 15)) [
    | yes lt ↦ lt
    | no ge ↦
        absurd
          (ne (realloc-zero c.chain (u16 (c.cluster_count + 1) * 2) h m (omega (arith, l.small))))
  ]

  traverse-Ends :
      (f current : ℕ) (c : ClusterChain) (s : Machine)
      → Loop current c
      → 2 ^ 15 < c.cluster_count + f
      → Ends fat start (traverse f fat current c s)
  unfolding traverse call_realloc
  traverse-Ends zero current c s l h = absurd (omega (arith, l.small))
  traverse-Ends (suc f) current c s l h =
      if-Ends (ltb current fat_eoc_start && ltb c.cluster_count (fat_entries fat)) _ _ s
        (λ more.
          if-Ends ((current == fat_bad_sector) || (current == fat_free_sector)) _ _ s
            (λ e. drop-Ends c s)
            λ fine.
              if-Ends (leb (fat_entries fat) current) _ _ s (λ e. drop-Ends c s)
                λ inside.
                  let r = realloc c.chain (u16 (c.cluster_count + 1) * 2) s.heap s.ata.memory in
                  null-Ends r.0 _ _ _ (λ e. drop-Ends _ _)
                    λ ne.
                      let fits : c.cluster_count + 1 < 2 ^ 15 =
                        room current c s.heap s.ata.memory l ne in
                      traverse-Ends f (fat.table current) _ _
                        (Loop-next current r.0 c l
                          (record {
                            used = ground arith;
                            good = ground arith;
                            not_end = ground arith;
                            inside = ground arith;
                          })
                          fits)
                        (omega arith))
        λ stop. finish-Ends current c s l (ground arith)

  follow-Ends :
      (p : ℕ) (k : M (Option ClusterChain)) (s : Machine)
      → p ≢ 0
      → Ends fat start (k s)
      → Ends fat start ((follow p >> k) s)
  follow-Ends p k s ne h =
      let ok : (p == 0) ≡ false = ground arith in rw (ok, follow, ◌>>◌, ◌>>=◌) h

-- Given more than 2^15 rounds, and a heap that has room for the `ClusterChain` itself,
-- `traverse_chain` ends, whatever the table holds, loops included. A chain that it returns follows
-- the table from the given cluster through clusters that are neither free nor bad and lie inside
-- of the table, is not empty, has the length that it says, and stops at an end mark, or as it has as
-- many clusters as the table has entries.
pub traverse_chain_lem :
    (fuel : ℕ) (fat : Volume) (start : ℕ) (s : Machine)
    → 2 ^ 15 < fuel
    → (zalloc 8 s.heap s.ata.memory).0 ≢ 0
    → (r : Option ClusterChain) × (s' : Machine) × (traverse_chain fuel fat start s ≡ some (r, s'))
      × ((c : ClusterChain) → r ≡ some c → IsChain fat start c)
unfolding traverse_chain call_zalloc
traverse_chain_lem fuel fat start s h ne =
    follow-Ends fat start (zalloc 8 s.heap s.ata.memory).0 _ _ ne (
      traverse-Ends fat start fuel start _ _
        (record { links = here; count = refl; small = omega arith }) (omega arith))
