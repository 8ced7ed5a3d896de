-- ===== src/Text/Split.antt =====
-- `strsplit` of kernel/STRING/string.c; stage2/STRING/string.c has the same text. The array of tokens
-- holds addresses of 32 bits.
pub mod Pieces
pub mod Tokens
pub mod Frames
pub mod Stored
pub mod Owned
pub mod Known
pub mod State
pub mod Extend
pub mod Steps
pub mod End
pub mod Fail
pub mod Pending
pub mod Rounds
pub mod Loop
use my_operating_system.Base.{
  ℕ, zero, suc, ◌+◌, ◌*◌, Bool, true, false, none, ltb, ◌==◌, ◌!=◌, ◌&&◌, if◌then◌else◌, u16,
}
use my_operating_system.Text.{str_none, alloc_fail, invalid_arg}
use my_operating_system.Machine.{
  M, pure, ◌>>=◌, ◌>>◌, call_realloc, call_free, load, load_long, store, store_long, str_set_error,
}

-- The local variables, and `*dest`.
pub record Split : Type 0 where
  pub dest : ℕ
  pub count : ℕ
  pub buffer : ℕ
  pub current_count : ℕ

-- The address of the `j`-th place of the array.
abbrev pub place_of : ℕ → ℕ → ℕ
place_of dest j = dest + j * 4

-- The loop that frees the tokens, with `n` of them left at `j`.
unfoldable pub free_tokens : ℕ → ℕ → ℕ → M (Unit {0})
free_tokens dest j zero = pure tt
free_tokens dest j (suc n) = do
  p ← load_long (place_of dest j)
  call_free p
  free_tokens dest (j + 1) n

-- Lines 228 to 235, with the test `!*dest`.
unfoldable pub free_dest : Split → Bool → M (Unit {0})
free_dest st true = pure tt
free_dest st false = do free_tokens st.dest 0 st.count; call_free st.dest

-- The label `fail`; `free` of NULL does nothing.
unfoldable pub fail_split : Split → M Split
fail_split st = do
  call_free st.buffer
  free_dest st (st.dest == 0)
  pure (record st { dest = 0; count = 0 })

abbrev pub out_of_memory : Split → M (Bool × Split)
out_of_memory st = do str_set_error alloc_fail; pure (false, st)

-- Lines 154 to 166, or 188 to 197, with the test `!tmp`: the token at `p` gets its place.
unfoldable pub add_token : Split → ℕ → ℕ → Bool → M (Bool × Split)
add_token st p q true = out_of_memory (record st { buffer = p })
add_token st p q false = do
  store_long (place_of q st.count) p
  pure (true, record st { dest = q; count = u16 (st.count + 1); buffer = 0 })

-- Lines 143 to 153, or 177 to 187, with the test `!tmp`: the buffer at `p` gets its terminating
-- zero.
unfoldable pub terminate_token : Split → ℕ → Bool → M (Bool × Split)
terminate_token st p true = out_of_memory st
terminate_token st p false = do
  store (p + st.current_count) 0
  q ← call_realloc st.dest ((st.count + 1) * 4)
  add_token st p q (q == 0)

-- The buffer becomes a token. Line 164 sets it to NULL, in the loop line 200, before it is
-- read again.
unfoldable pub end_token : Split → M (Bool × Split)
end_token st = do p ← call_realloc st.buffer (st.current_count + 1); terminate_token st p (p == 0)

-- `if (buffer && current_count > 0)`
unfoldable pub end_pending : Split → M (Bool × Split)
end_pending st s =
    if (st.buffer != 0) && ltb 0 st.current_count then end_token st s else pure (true, st) s

-- Lines 207 to 216, with the test `!tmp`.
unfoldable pub append_at : ℕ → Split → ℕ → Bool → M (Bool × Split)
append_at str st p true = out_of_memory st
append_at str st p false = do
  c ← load str
  store (p + st.current_count) c
  pure (true, record st { buffer = p; current_count = u16 (st.current_count + 1) })

-- One more character, from the pointer `str`, for the buffer.
unfoldable pub append_char : ℕ → Split → M (Bool × Split)
append_char str st = do
  p ← call_realloc st.buffer (st.current_count + 1)
  append_at str st p (p == 0)

-- A round of the loop goes on to the next character, or ends the function.
pub data Round : Type 0 where
  next over : Split → Round

-- `goto fail`
abbrev pub fail_round : Split → M Round
fail_round st = do st' ← fail_split st; pure (over st')

-- What follows the last token, a delimiter, and another character.
abbrev pub end_split : Bool × Split → M Round
end_split (false, st) = fail_round st
end_split (true, st) = do str_set_error str_none; pure (over st)

abbrev pub restart : Bool × Split → M Round
restart (false, st) = fail_round st
restart (true, st) = pure (next (record st { buffer = 0; current_count = 0 }))

abbrev pub go_on : Bool × Split → M Round
go_on (false, st) = fail_round st
go_on (true, st) = pure (next st)

-- The tests of the character: for the end of the text, and for the delimiter.
unfoldable pub judge_char : ℕ → Split → Bool → Bool → M Round
judge_char str st true is_delimiter = do r ← end_pending st; end_split r
judge_char str st false true = do r ← end_pending st; restart r
judge_char str st false false = do r ← append_char str st; go_on r

unfoldable pub split_round : ℕ → ℕ → Split → M Round
split_round str delimiter st = do c ← load str; judge_char str st (c == 0) (c == delimiter)

-- The loop, at the pointer `str`.
unfoldable pub split_from : ℕ → ℕ → ℕ → Split → M Split
split_from zero str delimiter st = λ s. none
split_from (suc f) str delimiter st = do
  r ← split_round str delimiter st
  elim r [ over st' ↦ pure st' | next st' ↦ split_from f (str + 1) delimiter st' ]

abbrev pub no_tokens : Split
no_tokens = record { dest = 0; count = 0; buffer = 0; current_count = 0 }

-- `dest` itself is not NULL.
unfoldable pub strsplit : ℕ → ℕ → ℕ → M Split
strsplit fuel str delimiter s =
    if str == 0
    then (do str_set_error invalid_arg; pure no_tokens) s
    else (do str_set_error str_none; split_from fuel str delimiter no_tokens) s
