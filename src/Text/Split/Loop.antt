-- ===== src/Text/Split/Loop.antt =====
-- The loop of `strsplit`, and what the function returns.
use mathlib.Core.Path.{subst}
use my_operating_system.Base.{
  ℕ, zero, suc, ◌+◌, ◌^◌, ◌≤◌, ◌<◌, ◌≡◌, ◌≢◌, ◌⊎◌, inl, inr, refl, arith, Option, none, some, true,
  false, List, [], ◌∷◌, ◌++◌, length, length-append, append_assoc, Bool-cases, ◌==◌,
}
use my_operating_system.Memory.{Memory}
use my_operating_system.Memory.Blocks.{IsBytes}
use my_operating_system.Memory.Spans.{bytes_at}
use my_operating_system.Heap.{Heap, heap_base}
use my_operating_system.Heap.Valid.{IsValid}
use my_operating_system.Text.{str_none}
use my_operating_system.Text.Length.{IsText}
use my_operating_system.Machine.{Machine, M, pure, str_set_error}
use my_operating_system.Text.Split.{
  Split, Round, next, over, judge_char, split_round, split_from, strsplit, no_tokens,
}
use my_operating_system.Text.Split.Pieces.{piece, pieces}
use my_operating_system.Text.Split.State.{Holds}
use my_operating_system.Heap.Blocks.{Live-range}
use my_operating_system.Text.Split.Owned.{Owned}
use my_operating_system.Text.Split.Rounds.{
  SplitInto, Ran, on, ended, budget, last_round, delimiter_round, char_round,
}

-- The loop after a round.
after_round :
    (h0 : Heap) (m0 : Memory) (words : List (List ℕ)) (P : Split → Machine → Type 0)
    (k : Split → M Split) (r : Option (Round × Machine))
    → Ran h0 m0 words P r
    → ((st : Split) (t : Machine) → P st t → SplitInto h0 m0 words (k st t))
    → SplitInto h0 m0 words (elim r [
      | none ↦ none
      | some (a, t) ↦ (elim a as (λ _. M Split) [ over st ↦ pure st | next st ↦ k st ]) t
    ])
after_round h0 m0 words P k _ (on p) rest = rest _ _ p
after_round h0 m0 words P k _ (ended q) rest = q

-- What the pieces are at a delimiter, and at another character.
pieces_delimiter :
    (d c : ℕ) (ws : List (List ℕ)) (cur cs : List ℕ)
    → (c == d) ≡ true
    → (ws ++ piece cur) ++ pieces d [] cs ≡ ws ++ pieces d cur (c ∷ cs)
pieces_delimiter d c ws cur cs e = rw e (append_assoc ws (piece cur) (pieces d [] cs))

pieces_char :
    (d c : ℕ) (ws : List (List ℕ)) (cur cs : List ℕ)
    → (c == d) ≡ false
    → ws ++ pieces d (cur ++ (c ∷ [])) cs ≡ ws ++ pieces d cur (c ∷ cs)
pieces_char d c ws cur cs e = rw e refl

-- The pieces have no more characters than the text.
length-piece :
    (ws : List (List ℕ)) (cur : List ℕ) → length (ws ++ piece cur) ≤ length ws + length cur
length-piece ws [] = let len = length-append ws [] in omega (arith, len)
length-piece ws (c ∷ cs) = let len = length-append ws ((c ∷ cs) ∷ []) in omega (arith, len)

-- The loop with `k` characters to go.
split_from_lem :
    (h0 : Heap) (m0 : Memory) (n d f k str : ℕ) (ws : List (List ℕ)) (cur : List ℕ) (st : Split)
    (s : Machine)
    → IsText m0 str k
    → k < f
    → length ws + length cur + k ≤ n
    → (str + k < heap_base) ⊎ (heap_base + 2 ^ 16 ≤ str)
    → Holds h0 m0 (budget n (suc k)) ws cur st s
    → SplitInto h0 m0 (ws ++ pieces d cur (bytes_at m0 str k)) (split_from f str d st s)
unfolding split_from split_round
split_from_lem h0 m0 n d zero k str ws cur st s text enough fits away holds = absurd (omega arith)
split_from_lem h0 m0 n d (suc f) zero str ws cur st s text enough fits away holds =
    let same = holds.outside str (omega arith) in
    let last : (s.ata.memory str == 0) ≡ true = ground (arith, same, text) in
    let words = ws ++ piece cur in
    let r : Ran h0 m0 words (λ _ _. ⊥)
        (judge_char str st (s.ata.memory str == 0) (s.ata.memory str == d) s) =
      rw last (last_round h0 m0 n 0 ws cur st s holds (omega arith) str (s.ata.memory str == d)) in
    after_round h0 m0 words (λ _ _. ⊥) (split_from f (str + 1) d) _ r (λ _ _ none. absurd none)
split_from_lem h0 m0 n d (suc f) (suc k) str ws cur st s (c, text) enough fits away holds =
    let same = holds.outside str (omega arith) in
    let more : (s.ata.memory str == 0) ≡ false = ground (arith, same, c) in
    let left = budget n (suc k) in
    let cs = bytes_at m0 (str + 1) k in
    let words = ws ++ pieces d cur (m0 str ∷ cs) in
    let longer = cur ++ (m0 str ∷ []) in
    elim (Bool-cases (m0 str == d)) [
      | inl e ↦
          let test : (s.ata.memory str == d) ≡ true = ground (arith, same, e) in
          let P : Split → Machine → Type 0 = Holds h0 m0 left (ws ++ piece cur) [] in
          let r : Ran h0 m0 words P
              (judge_char str st (s.ata.memory str == 0) (s.ata.memory str == d) s) =
            rw (more, test)
              (delimiter_round h0 m0 n left ws cur st s holds (omega arith) words str) in
          after_round h0 m0 words P (split_from f (str + 1) d) _ r (λ st' t holds'.
            subst (λ (l : List (List ℕ)). SplitInto h0 m0 l (split_from f (str + 1) d st' t))
              (pieces_delimiter d (m0 str) ws cur cs e)
              (split_from_lem h0 m0 n d f k (str + 1) (ws ++ piece cur) [] st' t text (omega arith)
                (omega (arith, length-piece ws cur)) (omega arith) holds'))
      | inr e ↦
          let test : (s.ata.memory str == d) ≡ false = ground (arith, same, e) in
          let P : Split → Machine → Type 0 = Holds h0 m0 left ws longer in
          let r : Ran h0 m0 words P
              (judge_char str st (s.ata.memory str == 0) (s.ata.memory str == d) s) =
            rw (more, test)
              (char_round h0 m0 n left ws cur st s holds (omega arith) words str (omega arith)) in
          after_round h0 m0 words P (split_from f (str + 1) d) _ r (λ st' t holds'.
            subst (λ (l : List (List ℕ)). SplitInto h0 m0 l (split_from f (str + 1) d st' t))
              (pieces_char d (m0 str) ws cur cs e)
              (split_from_lem h0 m0 n d f k (str + 1) ws longer st' t text (omega arith)
                (omega (arith, length-append cur (m0 str ∷ []))) (omega arith) holds'))
    ]

-- At the start the function has no block.
Owned-none : (h : Heap) (m : Memory) → IsValid h → Owned h h m 0 0 0
Owned-none h m v = record {
  old = λ t k l.
      let range = Live-range h v t k l in
      (
        l,
        λ own. elim own [
          | inl e ↦ omega (arith, range, e)
          | inr (inl e) ↦ omega (arith, range, e)
          | inr (inr (j, lt, e)) ↦ omega (arith, lt)
        ],
      );
  new = λ t k l. inl l;
}

-- `strsplit` of a string of `n` characters, which does not lie in the heap's first 64 KiB, on a valid
-- heap with room for it, returns: either it has tokens whose texts are the pieces of the string
-- between the delimiters, with the empty ones left out, in their order, each in a block of its own in
-- use and ended by a zero, and an array in use of their addresses, and the other blocks in use are
-- those from before; or a block could not be had, there is no array and no token, and the blocks in
-- use are those from before: nothing leaks. In both cases the heap is valid and no byte outside of
-- its first 64 KiB has changed.
pub strsplit_lem :
    (fuel str d n : ℕ) (s : Machine)
    → IsValid s.heap
    → IsBytes s.ata.memory
    → str ≢ 0
    → IsText s.ata.memory str n
    → n < fuel
    → (str + n < heap_base) ⊎ (heap_base + 2 ^ 16 ≤ str)
    → s.heap.heap_top + budget n (suc n) < 2 ^ 16
    → SplitInto s.heap s.ata.memory
        (pieces d [] (bytes_at s.ata.memory str n))
        (strsplit fuel str d s)
unfolding strsplit str_set_error
strsplit_lem fuel str d n s v b ne text enough away room =
    let start : Machine = record s { str_error = str_none } in
    let some_text : (str == 0) ≡ false = ground (arith, ne) in
    rw some_text (
      split_from_lem s.heap s.ata.memory n d fuel n str [] [] no_tokens start text enough
        (omega arith) away
        (record {
          valid = v;
          bytes = b;
          outside = λ x o. refl;
          room = room;
          count = refl;
          current = refl;
          array = inl (refl, refl);
          buffer = inl (refl, refl);
          owned = Owned-none s.heap s.ata.memory v;
        }))
