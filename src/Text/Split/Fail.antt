-- ===== src/Text/Split/Fail.antt =====
-- What follows the label `fail` of `strsplit`: each block of the function is freed.
use my_operating_system.Base.{
  ℕ, zero, suc, ◌+◌, ◌≤◌, ◌<◌, ◌≡◌, ◌⊎◌, inl, inr, refl, ap, ◌∙◌, arith, Option, some, true, false,
  Bool, ◌==◌,
}
use native.Mathlib.Decide.{ℕ_discrete}
use my_operating_system.Memory.{Memory}
use my_operating_system.Heap.{Heap, free}
use my_operating_system.Heap.Valid.{IsValid}
use my_operating_system.Heap.Blocks.{Live-range, SameBlocks}
use my_operating_system.Heap.Without.{Without, free-Without, IsAddress}
use my_operating_system.Machine.{Machine, call_free, bind-ran, pure, long_at}
use my_operating_system.Text.Split.{Split, fail_split, free_tokens, free_dest, place_of}
use my_operating_system.Text.Split.Owned.{Own, Owned}
use my_operating_system.Text.Split.Known.{Known}
use my_operating_system.Text.Split.State.{Failed, Cleared}

Without-or :
    (P Q : ℕ → Type 0) (h h1 h2 : Heap)
    → Without P h h1
    → Without Q h1 h2
    → Without (λ t. P t ⊎ Q t) h h2
Without-or P Q h h1 h2 a b = record {
  valid = b.valid;
  kept = λ t k l other. b.kept t k (a.kept t k l (λ p. other (inl p))) (λ q. other (inr q));
  gone = λ t k l.
      let (l1, not_q) = b.gone t k l in
      let (l0, not_p) = a.gone t k l1 in
      (l0, λ either. elim either [ inl p ↦ not_p p | inr q ↦ not_q q ]);
}

Without-as :
    (P Q : ℕ → Type 0) (h h' : Heap)
    → ((t : ℕ) → P t → Q t)
    → ((t : ℕ) → Q t → P t)
    → Without P h h'
    → Without Q h h'
Without-as P Q h h' to from a = record {
  valid = a.valid;
  kept = λ t k l other. a.kept t k l (λ p. other (to t p));
  gone = λ t k l. let (l', not_p) = a.gone t k l in (l', λ q. not_p (from t q));
}

-- No block stands at an address of `P`.
nothing-Without : (P : ℕ → Type 0) (h : Heap) → IsValid h → ((t : ℕ) → P t → t ≡ 0) → Without P h h
nothing-Without P h v null = record {
  valid = v;
  kept = λ t k l other. l;
  gone = λ t k l.
      let range = Live-range h v t k l in (l, λ p. let z = null t p in omega (arith, range, z));
}

-- An action that frees the blocks at the addresses of `P` and does nothing else.
record Frees (P : ℕ → Type 0) (s : Machine) (r : Option (Unit {0} × Machine)) : Type 0 where
  heap : Heap
  ran : r ≡ some (tt, record s { heap = heap })
  without : Without P s.heap heap

-- The addresses in the `n` places of the array from the `j`-th on.
abbrev InPlaces : Memory → ℕ → ℕ → ℕ → ℕ → Type 0
InPlaces m dest j n t = (i : ℕ) × (j ≤ i) × (i < j + n) × (t ≡ long_at m (place_of dest i))

free_tokens-Frees :
    (dest j n : ℕ) (s : Machine)
    → IsValid s.heap
    → ((i : ℕ) → j ≤ i → i < j + n → IsAddress (long_at s.ata.memory (place_of dest i)))
    → Frees (InPlaces s.ata.memory dest j n) s (free_tokens dest j n s)
unfolding free_tokens call_free
free_tokens-Frees dest j zero s v at = record {
  heap = s.heap;
  ran = refl;
  without =
      nothing-Without (InPlaces s.ata.memory dest j 0) s.heap v
        (λ t (i, lo, hi, e). absurd (omega (arith, lo, hi)));
}
free_tokens-Frees dest j (suc n) s v at =
    let m = s.ata.memory in
    let p = long_at m (place_of dest j) in
    let first = free-Without p s.heap v (inr (at j (omega arith) (omega arith))) in
    let s1 : Machine = record s { heap = free p s.heap } in
    let rest =
      free_tokens-Frees dest (j + 1) n s1 first.valid
        (λ i lo hi. at i (omega (arith, lo)) (omega (arith, hi))) in
    record {
      heap = rest.heap;
      ran = rest.ran;
      without =
          Without-as (λ t. (t ≡ p) ⊎ InPlaces m dest (j + 1) n t) (InPlaces m dest j (suc n)) s.heap
            rest.heap
            (λ t either. elim either [
              | inl e ↦ (j, omega arith, omega arith, e)
              | inr (i, lo, hi, e) ↦ (i, omega (arith, lo), omega (arith, hi), e)
            ])
            (λ t (i, lo, hi, e). elim (ℕ_discrete i j) [
              | yes here ↦ inl (e ∙ ap (λ (x : ℕ). long_at m (place_of dest x)) here)
              | no there ↦ inr (i, omega (arith, lo, there), omega (arith, hi), e)
            ])
            (Without-or (λ t. t ≡ p) (InPlaces m dest (j + 1) n) s.heap s1.heap rest.heap first
              rest.without);
    }

-- The array and its tokens.
abbrev Stored : Memory → ℕ → ℕ → ℕ → Type 0
Stored m dest count t = (t ≡ dest) ⊎ ((j : ℕ) × (j < count) × (t ≡ long_at m (place_of dest j)))

free_dest-Frees :
    (st : Split) (b : Bool) (s : Machine)
    → IsValid s.heap
    → (st.dest == 0) ≡ b
    → Known s.ata.memory st.dest st.count st.buffer
    → Frees (Stored s.ata.memory st.dest st.count) s (free_dest st b s)
unfolding free_dest call_free
free_dest-Frees st true s v e known = record {
  heap = s.heap;
  ran = refl;
  without = nothing-Without (Stored s.ata.memory st.dest st.count) s.heap v (λ t p.
      elim known.array_at [
        | inl (z, none) ↦ elim p [
          | inl here ↦ here ∙ z
          | inr (j, lt, there) ↦ absurd (omega (arith, lt, none))
        ]
        | inr (at, _) ↦ absurd (ground (arith, e, at))
      ]);
}
free_dest-Frees st false s v e known = elim known.array_at [
  | inl (z, none) ↦ absurd (ground (arith, e, z))
  | inr (at, places) ↦
      let m = s.ata.memory in
      let tokens =
        free_tokens-Frees st.dest 0 st.count s v (λ i lo hi. places i (omega (arith, hi))) in
      let last = free-Without st.dest tokens.heap tokens.without.valid (inr at) in
      record {
        heap = free st.dest tokens.heap;
        ran =
            bind-ran (free_tokens st.dest 0 st.count) (λ _. call_free st.dest) s
              (record s { heap = tokens.heap }) tt tokens.ran;
        without =
            Without-as (λ t. InPlaces m st.dest 0 st.count t ⊎ (t ≡ st.dest))
              (Stored m st.dest st.count) s.heap (free st.dest tokens.heap)
              (λ t either. elim either [
                | inl (i, lo, hi, there) ↦ inr (i, omega (arith, hi), there)
                | inr here ↦ inl here
              ])
              (λ t stored. elim stored [
                | inl here ↦ inr here
                | inr (i, lt, there) ↦ inl (i, omega arith, omega (arith, lt), there)
              ])
              (Without-or (InPlaces m st.dest 0 st.count) (λ t. t ≡ st.dest) s.heap tokens.heap
                (free st.dest tokens.heap) tokens.without last);
      }
]

Owned-Cleared :
    (h0 h h' : Heap) (m : Memory) (dest count buffer : ℕ)
    → Owned h0 h m dest count buffer
    → Without (Own m dest count buffer) h h'
    → SameBlocks h0 h'
Owned-Cleared h0 h h' m dest count buffer o w = (
  λ t k l0. let (l, other) = o.old t k l0 in w.kept t k l other,
  λ t k l'.
      let (l, other) = w.gone t k l' in
      elim (o.new t k l) [ inl l0 ↦ l0 | inr own ↦ absurd (other own) ],
)

-- The label `fail` leaves no array, and the blocks in use are those from before the function.
pub fail_split_lem :
    (h0 : Heap) (m0 : Memory) (st : Split) (s : Machine)
    → Failed h0 m0 st s
    → (s' : Machine) × (fail_split st s ≡ some (record st { dest = 0; count = 0 }, s'))
      × Cleared h0 m0 s'
unfolding fail_split call_free
fail_split_lem h0 m0 st s f =
    let m = s.ata.memory in
    let first = free-Without st.buffer s.heap f.valid f.known.buffer_at in
    let s1 : Machine = record s { heap = free st.buffer s.heap } in
    let rest = free_dest-Frees st (st.dest == 0) s1 first.valid refl f.known in
    let s2 : Machine = record s { heap = rest.heap } in
    let all =
      Without-or (λ t. t ≡ st.buffer) (Stored m st.dest st.count) s.heap s1.heap rest.heap first
        rest.without in
    (
      s2,
      bind-ran (free_dest st (st.dest == 0)) (λ _. pure (record st { dest = 0; count = 0 })) s1 s2
          tt rest.ran,
      record {
        valid = rest.without.valid;
        outside = f.outside;
        error = f.error;
        blocks = Owned-Cleared h0 s.heap rest.heap m st.dest st.count st.buffer f.owned all;
      },
    )
