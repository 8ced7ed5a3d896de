-- ===== src/Text/Split/Tokens.antt =====
-- The array of tokens in memory, and what keeps it.
use mathlib.Core.Path.{subst}
use my_operating_system.Base.{
  ℕ, zero, suc, ◌+◌, ◌*◌, ◌≤◌, ◌<◌, ◌≡◌, ◌≢◌, ◌⊎◌, ◌∙◌, arith, List, [], ◌∷◌, ◌++◌, length,
}
use my_operating_system.Memory.{Memory}
use my_operating_system.Memory.Blocks.{same_at}
use my_operating_system.Memory.Spans.{bytes_at, bytes_at-kept}
use my_operating_system.Heap.{Heap}
use my_operating_system.Heap.Blocks.{Live}
use my_operating_system.Machine.{long_at}
use my_operating_system.Text.Split.{place_of}

-- A block in use at `t`, other than the array and the buffer, holds the text `w`, which a zero ends.
pub record Token (h : Heap) (m : Memory) (dest buffer t : ℕ) (w : List ℕ) : Type 0 where
  pub extent : ℕ
  pub live : Live h t extent
  pub not_array : t ≢ dest
  pub not_buffer : t ≢ buffer
  pub room : length w < extent
  pub text : bytes_at m t (length w) ≡ w
  pub ended : m (t + length w) ≡ 0

-- The places of the array from the `k`-th on hold the addresses of these tokens.
abbrev pub Tokens : Heap → Memory → ℕ → ℕ → ℕ → List (List ℕ) → Type 0
Tokens h m dest buffer k [] = Unit {0}
Tokens h m dest buffer k (w ∷ ws) =
    Token h m dest buffer (long_at m (place_of dest k)) w × Tokens h m dest buffer (k + 1) ws

-- The first `n` places of the array hold addresses that differ.
abbrev pub Distinct : Memory → ℕ → ℕ → Type 0
Distinct m dest n =
    (i j : ℕ) → i < j → j < n → long_at m (place_of dest i) ≢ long_at m (place_of dest j)

-- NULL for no tokens, or a block in use with an address for each,
-- no two of them equal.
abbrev pub Array : Heap → Memory → ℕ → ℕ → List (List ℕ) → Type 0
Array h m dest buffer ws =
    ((dest ≡ 0) × (ws ≡ []))
    ⊎ ((n : ℕ) × Live h dest n
        × (dest ≢ buffer)
        × (length ws * 4 ≤ n)
        × Tokens h m dest buffer 0 ws
        × Distinct m dest (length ws))

-- From one state to the next the blocks but those at `a` and `b` are kept, with their bytes, and are
-- others than those at `a'` and `b'`.
abbrev pub Frame : Heap → Memory → ℕ → ℕ → Heap → Memory → ℕ → ℕ → Type 0
Frame h m a b h' m' a' b' =
    (t k : ℕ)
    → t ≢ a
    → t ≢ b
    → Live h t k
    → Live h' t k × (t ≢ a') × (t ≢ b') × ((x : ℕ) → t ≤ x → x < t + k → m' x ≡ m x)

pub Token-kept :
    {h h' : Heap} {m m' : Memory} {a b a' b' t : ℕ} {w : List ℕ}
    → Frame h m a b h' m' a' b'
    → Token h m a b t w
    → Token h' m' a' b' t w
Token-kept {m = m} {m' = m'} {t = t} {w = w} frame token =
    let (live, not_a, not_b, same) =
      frame t token.extent token.not_array token.not_buffer token.live in
    let room = token.room in
    record {
      extent = token.extent;
      live = live;
      not_array = not_a;
      not_buffer = not_b;
      room = room;
      text = bytes_at-kept m m' t (length w) (λ x lo hi. same x lo (omega arith)) ∙ token.text;
      ended = same (t + length w) (omega arith) (omega arith) ∙ token.ended;
    }

-- Four equal bytes make equal addresses.
pub long_at-same :
    (m m' : Memory) (p q : ℕ)
    → ((j : ℕ) → j < 4 → m' (q + j) ≡ m (p + j))
    → long_at m' q ≡ long_at m p
long_at-same m m' p q same =
    let a = same_at m' (q + 0) q in
    let b = same_at m (p + 0) p in
    ground (
      arith,
      same 0,
      same 1,
      same 2,
      same 3,
      same_at m' (q + 0) q,
      same_at m (p + 0) p,
      same_at m' (q + 3) (q + 2 + 1),
      same_at m (p + 3) (p + 2 + 1),
    )

pub Tokens-kept :
    {h h' : Heap} {m m' : Memory} {a b a' b' : ℕ}
    → (k : ℕ) (ws : List (List ℕ)) → Frame h m a b h' m' a' b'
    → ((j : ℕ) → j < k + length ws → long_at m' (place_of a' j) ≡ long_at m (place_of a j))
    → Tokens h m a b k ws
    → Tokens h' m' a' b' k ws
Tokens-kept k [] frame same tokens = tt
Tokens-kept {h} {h'} {m} {m'} {a} {b} {a'} {b'} k (w ∷ ws) frame same (token, tokens) = (
  rw (same k (omega arith)) (Token-kept frame token),
  Tokens-kept (k + 1) ws frame (λ j lt. same j (omega arith)) tokens,
)

-- One more token.
pub Tokens-append :
    {h : Heap} {m : Memory} {a b : ℕ}
    → (k : ℕ) (ws : List (List ℕ)) (w : List ℕ) → Tokens h m a b k ws
    → Token h m a b (long_at m (place_of a (k + length ws))) w
    → Tokens h m a b k (ws ++ (w ∷ []))
Tokens-append {h} {m} {a} {b} k [] w tokens token =
    let same : k + 0 ≡ k = omega arith in
    (subst (λ (j : ℕ). Token h m a b (long_at m (place_of a j)) w) same token, tt)
Tokens-append {h} {m} {a} {b} k (x ∷ ws) w (first, tokens) token =
    let same : k + suc (length ws) ≡ k + 1 + length ws = omega arith in
    (
      first,
      Tokens-append (k + 1) ws w tokens
          (subst (λ (j : ℕ). Token h m a b (long_at m (place_of a j)) w) same token),
    )

-- No token is the buffer.
pub Tokens-apart :
    (h : Heap) (m : Memory) (a b k : ℕ) (ws : List (List ℕ)) (j : ℕ)
    → Tokens h m a b k ws
    → j < length ws
    → long_at m (place_of a (k + j)) ≢ b
Tokens-apart h m a b k [] j tokens lt = absurd (omega arith)
Tokens-apart h m a b k (w ∷ ws) zero (token, tokens) lt =
    let same : k + 0 ≡ k = omega arith in rw same token.not_buffer
Tokens-apart h m a b k (w ∷ ws) (suc j) (token, tokens) lt =
    let same : k + suc j ≡ k + 1 + j = omega arith in
    rw same (Tokens-apart h m a b (k + 1) ws j tokens (omega arith))
