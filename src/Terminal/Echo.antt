-- ===== src/Terminal/Echo.antt =====
-- What the rounds of `stdin_loop` hand on.
use my_operating_system.Base.{
  ℕ, zero, suc, ◌+◌, ◌-◌, ◌≤◌, ◌<◌, ◌≡◌, ◌≢◌, sym, append-nil, append_assoc, refl, ◌∙◌, arith, true,
  List, [], ◌∷◌, ◌++◌, ap, ltb, get_or,
}
use my_operating_system.Memory.{Memory}
use my_operating_system.Keyboard.{Keyboard}
use my_operating_system.Screen.{
  Screen, put_char, video_memory_base, cell, next_row, backspace, tab, put_plain,
}
use my_operating_system.Screen.Cursor.{OnScreen, put_char-OnScreen, store_cell_lem}
use my_operating_system.Stdin.{Stdin, stdin_insert, stdin_size, stdin_base}
use my_operating_system.Stdin.Fifo
use my_operating_system.Stdin.Fifo.{chars, pending, stdin_insert_lem}
use my_operating_system.Terminal.{Terminal, stdin_loop, echo}

pub put_char-above :
    (c color : ℕ) (s : Screen) (a : ℕ)
    → OnScreen s
    → video_memory_base + 4000 ≤ a
    → (put_char c color s).memory a ≡ s.memory a
unfolding put_char next_row backspace tab put_plain
put_char-above c color s a h p = ground (
  arith,
  store_cell_lem (cell s - 2) b' ' color s.memory a,
  store_cell_lem (cell s) c color s.memory a,
)

pub chars-kept :
    (m m' : Memory) (i n : ℕ) → ((a : ℕ) → stdin_base ≤ a → m' a ≡ m a) → chars m' i n ≡ chars m i n
chars-kept m m' i zero same = refl
chars-kept m m' i (suc n) same =
    ground (arith, same (stdin_base + i) (omega arith), chars-kept m m' (i + 1) n same)

-- The state in which a round finds the screen and the line buffer, with room for `n` characters.
pub record IsReady (n : ℕ) (t : Terminal) : Type 0 where
  pub screen : OnScreen t.screen
  pub stdin : Fifo.IsValid t.stdin
  pub room : t.stdin.in_count + n ≤ stdin_size

-- The `n` typed characters from index `i` on.
abbrev pub typed : List ℕ → ℕ → ℕ → List ℕ
typed buffer i zero = []
typed buffer i (suc n) = get_or buffer i 0 ∷ typed buffer (i + 1) n

pub rounds : ℕ → Terminal → Terminal
rounds zero t = t
rounds (suc n) t = rounds n (stdin_loop t)

count-stdin_insert :
    (c : ℕ) (s : Stdin)
    → c ≢ 0
    → s.in_count < stdin_size
    → (stdin_insert c s).in_count ≡ s.in_count + 1
unfolding stdin_insert
count-stdin_insert c s ne h = ground arith

module _ (t : Terminal) (n c : ℕ) (e : c ≡ get_or t.keyboard.char_buffer t.current_char_out 0) where
  stdin_loop-echo :
      t.current_char_out < t.keyboard.current_char_in
      → let (screen, stdin) = echo c t.screen t.stdin in
        stdin_loop t
        ≡ record t { current_char_out = t.current_char_out + 1; screen = screen; stdin = stdin }
  unfolding stdin_loop
  stdin_loop-echo h =
      let more : ltb t.current_char_out t.keyboard.current_char_in ≡ true = ground arith in
      rw (more, e) refl

  echo_lem :
      IsReady (suc n) t
      → c < 256
      → c ≢ 0
      → let (screen, stdin) = echo c t.screen t.stdin in
        OnScreen screen
        × Fifo.IsValid stdin
        × (pending stdin ≡ pending t.stdin ++ (c ∷ []))
        × (stdin.in_count ≡ t.stdin.in_count + 1)
  unfolding echo
  echo_lem ready byte ne =
      let on = ready.screen in
      let valid = ready.stdin in
      let room = ready.room in
      let before : Screen = record t.screen { memory = t.stdin.memory } in
      let on_before : OnScreen before = record { x = on.x; y = on.y } in
      let shown = put_char c 0x0F before in
      let on' : OnScreen shown = put_char-OnScreen c 0x0F before on_before in
      let s : Stdin = record t.stdin { memory = shown.memory } in
      let valid' : Fifo.IsValid s = record { ordered = valid.ordered; fits = valid.fits } in
      let kept =
        chars-kept t.stdin.memory shown.memory t.stdin.out_count
          (t.stdin.in_count - t.stdin.out_count)
          (λ a h. put_char-above c 0x0F before a on_before (omega arith)) in
      let (v, p, _, _, _, _) = stdin_insert_lem c s valid' byte ne in
      let open_place : ltb t.stdin.in_count stdin_size ≡ true = ground (arith, room) in
      (
        record { x = on'.x; y = on'.y },
        v,
        p ∙ rw (open_place, kept) refl,
        count-stdin_insert c s ne (omega (arith, room)),
      )

one_more :
    (n : ℕ) (t : Terminal)
    → IsReady (suc n) t
    → (c : ℕ) → c ≡ get_or t.keyboard.char_buffer t.current_char_out 0
    → c < 256
    → c ≢ 0
    → t.current_char_out < t.keyboard.current_char_in
    → let t' = stdin_loop t in
      IsReady n t'
      × (t'.current_char_out ≡ t.current_char_out + 1)
      × (t'.keyboard ≡ t.keyboard)
      × (pending t'.stdin ≡ pending t.stdin ++ (c ∷ []))
one_more n t ready c e byte ne more =
    let (on, valid, p, count) = echo_lem t n c e ready byte ne in
    let room = ready.room in
    rw (stdin_loop-echo t n c e more)
      (record { screen = on; stdin = valid; room = omega (arith, count, room) }, refl, refl, p)

rounds_from :
    (n o : ℕ) (k : Keyboard) (t : Terminal)
    → t.keyboard ≡ k
    → t.current_char_out ≡ o
    → IsReady n t
    → o + n ≤ k.current_char_in
    → ((i : ℕ)
        → i < k.current_char_in
        → (get_or k.char_buffer i 0 < 256) × (get_or k.char_buffer i 0 ≢ 0))
    → let t' = rounds n t in
      IsReady 0 t'
      × (t'.current_char_out ≡ o + n)
      × (pending t'.stdin ≡ pending t.stdin ++ typed k.char_buffer o n)
unfolding rounds
rounds_from zero o k t ek eo ready h bytes =
    (ready, omega arith, sym (append-nil (pending t.stdin)))
rounds_from (suc n) o k t ek eo ready h bytes =
    let (byte, ne) = bytes o (omega arith) in
    let count = ap (λ (j : Keyboard). j.current_char_in) ek in
    let c_read : get_or k.char_buffer o 0 ≡ get_or t.keyboard.char_buffer t.current_char_out 0 =
      rw (ek, eo) refl in
    let (ready', out, same, p) =
      one_more n t ready (get_or k.char_buffer o 0) c_read byte ne (omega (arith, count)) in
    let (r, o', q) =
      rounds_from n (o + 1) k (stdin_loop t) (same ∙ ek) (omega (arith, out)) ready' (omega arith)
        bytes in
    (r, omega (arith, o'), q ∙ rw (p, append_assoc) refl)

-- If the keyboard has stored at least `n` characters that `stdin_loop` has not taken, all that it
-- stored are bytes other than 0, and the line buffer has room for `n`, then `n` rounds append the
-- first `n` of them to the line buffer, each once and in the order of typing. The cursor stays on the
-- screen.
pub rounds_lem :
    (n : ℕ) (t : Terminal)
    → IsReady n t
    → t.current_char_out + n ≤ t.keyboard.current_char_in
    → ((i : ℕ)
        → i < t.keyboard.current_char_in
        → (get_or t.keyboard.char_buffer i 0 < 256) × (get_or t.keyboard.char_buffer i 0 ≢ 0))
    → let t' = rounds n t in
      IsReady 0 t'
      × (t'.current_char_out ≡ t.current_char_out + n)
      × (pending t'.stdin ≡ pending t.stdin ++ typed t.keyboard.char_buffer t.current_char_out n)
rounds_lem n t ready h bytes = rounds_from n t.current_char_out t.keyboard t refl refl ready h bytes
