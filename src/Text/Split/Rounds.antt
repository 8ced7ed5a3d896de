-- ===== src/Text/Split/Rounds.antt =====
-- A round of the loop of `strsplit`.
use my_operating_system.Base.{
  ℕ, zero, suc, ◌+◌, ◌*◌, ◌^◌, ◌≤◌, ◌<◌, ◌≡◌, ◌⊎◌, refl, arith, Option, none, some, true, false,
  Bool, List, [], ◌∷◌, ◌++◌, length,
}
use my_operating_system.Memory.{Memory}
use my_operating_system.Heap.{Heap, heap_base}
use my_operating_system.Heap.Valid.{IsValid}
use my_operating_system.Text.{str_none}
use my_operating_system.Machine.{Machine, M, ◌>>=◌, pure, bind-ran, str_set_error}
use my_operating_system.Text.Split.{
  Split, Round, next, over, fail_split, fail_round, end_split, restart, go_on, end_pending,
  append_char, judge_char,
}
use my_operating_system.Text.Split.Pieces.{piece}
use my_operating_system.Text.Split.Tokens.{Array}
use my_operating_system.Text.Split.Owned.{Owned}
use my_operating_system.Text.Split.State.{
  Cleared, Outside, Holds, Failed, Stepped, went, failed, Restarted,
}
use my_operating_system.Text.Split.Steps.{append_char-Stepped}
use my_operating_system.Text.Split.Fail.{fail_split_lem}
use my_operating_system.Text.Split.Pending.{Holds-less, end_pending-Stepped}

-- The two results: the array holds these tokens, and the blocks in use are those from before with it
-- and them; or a block could not be had, and the blocks in use are those from before.
pub data SplitInto (h0 : Heap) (m0 : Memory) (words : List (List ℕ))
    : Option (Split × Machine) → Type 0 where
  tokens :
      {st : Split} {s : Machine}
      → s.str_error ≡ str_none
      → st.count ≡ length words
      → Array s.heap s.ata.memory st.dest 0 words
      → IsValid s.heap
      → Outside m0 s.ata.memory
      → Owned h0 s.heap s.ata.memory st.dest st.count 0
      → SplitInto h0 m0 words (some (st, s))
  refused :
      {st : Split} {s : Machine}
      → st.dest ≡ 0
      → st.count ≡ 0
      → Cleared h0 m0 s
      → SplitInto h0 m0 words (some (st, s))

-- A round goes on, or ends the function with one of its results.
pub data Ran (h0 : Heap) (m0 : Memory) (words : List (List ℕ)) (P : Split → Machine → Type 0)
    : Option (Round × Machine) → Type 0 where
  on : {st : Split} {s : Machine} → P st s → Ran h0 m0 words P (some (next st, s))
  ended :
      {st : Split} {s : Machine}
      → SplitInto h0 m0 words (some (st, s))
      → Ran h0 m0 words P (some (over st, s))

fail_round-Ran :
    (h0 : Heap) (m0 : Memory) (words : List (List ℕ)) (P : Split → Machine → Type 0) (st : Split)
    (s : Machine)
    → Failed h0 m0 st s
    → Ran h0 m0 words P (fail_round st s)
fail_round-Ran h0 m0 words P st s f =
    let (s', ran, still) = fail_split_lem h0 m0 st s f in
    let whole =
      bind-ran (fail_split st) (λ st'. pure (over st')) s s' (record st { dest = 0; count = 0 })
        ran in
    rw whole (ended (refused refl refl still))

-- After a step the round goes on, or to the label `fail`.
after_step :
    (h0 : Heap) (m0 : Memory) (P : Split → Machine → Type 0) (R : Option (Round × Machine) → Type 0)
    (m : M (Bool × Split)) (k : Bool × Split → M Round) (s : Machine)
    → Stepped h0 m0 P (m s)
    → ((st : Split) (t : Machine) → P st t → R (k (true, st) t))
    → ((st : Split) (t : Machine) → Failed h0 m0 st t → R (k (false, st) t))
    → R ((m >>= k) s)
after_step h0 m0 P R m k s stepped good bad = go (m s) stepped
  where
    go :
        (r : Option ((Bool × Split) × Machine))
        → Stepped h0 m0 P r
        → R (elim r [ none ↦ none | some (a, t) ↦ k a t ])
    go _ (went p) = good _ _ p
    go _ (failed f) = bad _ _ f

-- The length of what a round may take from the heap, for a text of `n` characters.
abbrev pub round_cost : ℕ → ℕ
round_cost n = 4 * n + 7

-- The same for the loop with `k` rounds to go.
abbrev pub budget : ℕ → ℕ → ℕ
budget n zero = 0
budget n (suc k) = round_cost n + budget n k

module _ (h0 : Heap) (m0 : Memory) (n left : ℕ) (ws : List (List ℕ)) (cur : List ℕ) (st : Split)
    (s : Machine) (holds : Holds h0 m0 (round_cost n + left) ws cur st s)
    (short : length ws + length cur ≤ n) where
  pending : Stepped h0 m0 (Restarted h0 m0 left (ws ++ piece cur)) (end_pending st s)
  pending =
      end_pending-Stepped h0 m0 left ws cur st s
        (Holds-less h0 m0 _ _ ws cur st s (omega arith) holds)

  -- The round at the end of the text.
  pub last_round :
      (str : ℕ) (b : Bool) → Ran h0 m0 (ws ++ piece cur) (λ _ _. ⊥) (judge_char str st true b s)
  unfolding judge_char str_set_error
  last_round str b =
      let words = ws ++ piece cur in
      after_step h0 m0 (Restarted h0 m0 left words) (Ran h0 m0 words (λ _ _. ⊥)) (end_pending st)
        end_split s pending
        (λ st' t p. ended (tokens refl p.count p.array p.valid p.outside p.owned))
        (λ st' t f. fail_round-Ran h0 m0 words _ st' t f)

  pub delimiter_round :
      (words : List (List ℕ)) (str : ℕ)
      → Ran h0 m0 words (Holds h0 m0 left (ws ++ piece cur) []) (judge_char str st false true s)
  unfolding judge_char
  delimiter_round words str =
      after_step h0 m0 (Restarted h0 m0 left (ws ++ piece cur))
        (Ran h0 m0 words (Holds h0 m0 left (ws ++ piece cur) [])) (end_pending st) restart s pending
        (λ st' t p. on p) (λ st' t f. fail_round-Ran h0 m0 words _ st' t f)

  pub char_round :
      (words : List (List ℕ)) (str : ℕ)
      → (str < heap_base) ⊎ (heap_base + 2 ^ 16 ≤ str)
      → Ran h0 m0 words
          (Holds h0 m0 left ws (cur ++ (m0 str ∷ [])))
          (judge_char str st false false s)
  unfolding judge_char
  char_round words str away =
      let longer = cur ++ (m0 str ∷ []) in
      after_step h0 m0 (Holds h0 m0 left ws longer) (Ran h0 m0 words (Holds h0 m0 left ws longer))
        (append_char str st) go_on s
        (append_char-Stepped h0 m0 (round_cost n) left ws cur st s holds (omega arith) str (m0 str)
          refl away)
        (λ st' t p. on p) (λ st' t f. fail_round-Ran h0 m0 words _ st' t f)
