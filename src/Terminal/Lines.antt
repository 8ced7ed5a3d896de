-- ===== src/Terminal/Lines.antt =====
-- The rounds of `echo_task`: what they print is what they have read.
use mathlib.Core.Path.{subst}
use my_operating_system.Base.{
  ℕ, zero, suc, ◌+◌, ◌-◌, ◌^◌, ◌≤◌, ◌<◌, ◌≡◌, ◌≢◌, refl, sym, ap, ◌∙◌, arith, false, some, List, [],
  ◌∷◌, ◌++◌, ◌==◌,
}
use my_operating_system.Memory.{Memory}
use my_operating_system.Memory.Blocks.{IsBytes, same_at}
use my_operating_system.Heap.{Heap}
use my_operating_system.Screen.{
  Screen, video_memory_base, cell, put_char, next_row, backspace, tab, put_plain, print_string,
}
use my_operating_system.Screen.Cursor.{OnScreen, store_cell_lem, put_char-OnScreen}
use my_operating_system.Stdin.{Stdin, read_line, stdin_base}
use my_operating_system.Stdin.Fifo.{IsValid, pending}
use my_operating_system.Memory.Spans.{bytes_at, bytes_at-split}
use my_operating_system.Stdin.Line.{InLine, waits, fails, reads, read_line_lem}
use my_operating_system.Terminal.{Terminal, print_from, waiting, echoed, echo_round}
use my_operating_system.Terminal.Echo.{put_char-above, chars-kept}

-- Below the video buffer, and below the two bytes before it that a backspace may change.
put_char-below :
    (c color : ℕ) (s : Screen) (a : ℕ)
    → OnScreen s
    → a + 2 < video_memory_base
    → (put_char c color s).memory a ≡ s.memory a
unfolding put_char next_row backspace tab put_plain
put_char-below c color s a h p = ground (
  arith,
  store_cell_lem (cell s - 2) b' ' color s.memory a,
  store_cell_lem (cell s) c color s.memory a,
)

abbrev pub NoZero : List ℕ → Type 0
NoZero [] = Unit {0}
NoZero (c ∷ cs) = (c ≢ 0) × NoZero cs

NoZero-prefix : (a b : List ℕ) → NoZero (a ++ b) → NoZero a
NoZero-prefix [] b h = tt
NoZero-prefix (c ∷ a) b (ne, h) = (ne, NoZero-prefix a b h)

-- The `n` characters of a string below the video buffer are printed one after another.
print_from_lem :
    (f n p : ℕ) (m : Memory) (s : Screen)
    → n < f
    → OnScreen s
    → p + n + 2 < video_memory_base
    → ((a : ℕ) → a + 2 < video_memory_base → s.memory a ≡ m a)
    → NoZero (bytes_at m p n)
    → m (p + n) ≡ 0
    → print_from f p s ≡ some (print_string (bytes_at m p n) s)
unfolding print_from print_string
print_from_lem zero n p m s h on low same nz e = absurd (omega (arith, h))
print_from_lem (suc f) zero p m s h on low same nz e =
    let at : p + 0 ≡ p = omega arith in
    let end : s.memory p ≡ 0 = same p (omega arith) ∙ ap m (sym at) ∙ e in rw end refl
print_from_lem (suc f) (suc n) p m s h on low same (ne, nz) e =
    let here : s.memory p ≡ m p = same p (omega arith) in
    let more : (m p == 0) ≡ false = ground (arith, ne) in
    rw (here, more)
      (print_from_lem f n (p + 1) m (put_char (m p) 0x04 s) (omega arith)
        (put_char-OnScreen (m p) 0x04 s on) (omega arith)
        (λ a l. put_char-below (m p) 0x04 s a on l ∙ same a l) nz
        (same_at m (p + 1 + n) (p + suc n) (omega arith) ∙ e))

print_string-above :
    (cs : List ℕ) (s : Screen) (a : ℕ)
    → OnScreen s
    → stdin_base ≤ a
    → (print_string cs s).memory a ≡ s.memory a
unfolding print_string
print_string-above [] s a on h = refl
print_string-above (c ∷ cs) s a on h =
    print_string-above cs (put_char c 0x04 s) a (put_char-OnScreen c 0x04 s on) h
    ∙ put_char-above c 0x04 s a on (omega (arith, h))

-- The terminal after a round that has read the line at `p`.
abbrev after_echo : Terminal → Stdin → List ℕ → Terminal
after_echo t after line =
    let s = print_string line (record t.screen { memory = after.memory }) in
    record t { screen = s; stdin = record after { memory = s.memory } }

-- The outcomes of a round.
pub data Echoes (f : ℕ) (h : Heap) (t : Terminal) : Type 0 where
  no_line : echo_round f h t ≡ waiting → t.stdin.new_line_count ≡ 0 → Echoes f h t
  no_text :
      {h' : Heap}
      → read_line h t.stdin ≡ some (0, h', t.stdin)
      → 0 < t.stdin.new_line_count
      → Echoes f h t
  line :
      (h' : Heap) (after : Stdin) (l : List ℕ)
      → 0 < t.stdin.new_line_count
      → InLine l
      → echo_round f h t ≡ echoed h' (after_echo t after (l ++ (10 ∷ [])))
      → pending t.stdin ≡ (l ++ (10 ∷ [])) ++ pending (after_echo t after (l ++ (10 ∷ []))).stdin
      → Echoes f h t

echo_round-read :
    (f : ℕ) (h h' : Heap) (t : Terminal) (p : ℕ) (after : Stdin) (l : List ℕ)
    → read_line h t.stdin ≡ some (p, h', after)
    → (p == 0) ≡ false
    → print_from f p (record t.screen { memory = after.memory })
      ≡ some (print_string l (record t.screen { memory = after.memory }))
    → echo_round f h t ≡ echoed h' (after_echo t after l)
unfolding echo_round
echo_round-read f h h' t p after l e some_text printed = rw (echo_round, e, some_text, printed) refl

-- A round of `echo_task`, when no zero is pending and the pending text is shorter than 64 KiB, with
-- 2^16 characters or more for `print_string`. It waits exactly while no newline is counted. Or
-- `read_line` returns NULL. Or the round ends, and what it has printed is the first line of the
-- pending text with its newline, which it has taken: the rest is still pending.
pub echo_round_lem :
    (f : ℕ) (h : Heap) (t : Terminal)
    → IsValid t.stdin
    → IsBytes t.stdin.memory
    → h.heap_top < 2 ^ 16
    → OnScreen t.screen
    → NoZero (pending t.stdin)
    → t.stdin.in_count < t.stdin.out_count + 0xFFFF
    → 2 ^ 16 ≤ f
    → Echoes f h t
echo_round_lem f h t v bytes top on nz short fuel = elim (read_line_lem h t.stdin v bytes top) [
  | waits e none_there ↦ no_line (unfold echo_round in rw (echo_round, e) refl) none_there
  | fails e some_there _ ↦ no_text e some_there
  | reads {p = p} {h = h'} {after = after} k e some_there _ ne r ↦
      let text = bytes_at after.memory p k in
      let l = text ++ (10 ∷ []) in
      let whole : bytes_at after.memory p (suc k) ≡ l =
        bytes_at-split after.memory p (p + k) k 1 (suc k) refl (omega arith)
        ∙ ap (λ (c : ℕ). text ++ (c ∷ [])) r.line_end in
      let s : Screen = record t.screen { memory = after.memory } in
      let on' : OnScreen s = record { x = on.x; y = on.y } in
      let valid = r.valid in
      let ordered = valid.ordered in
      let input = r.input in
      let output = r.output in
      let block = r.block in
      let printed =
        print_from_lem f (suc k) p after.memory s (omega arith) on' (omega arith) (λ a _. refl)
          (NoZero-prefix (bytes_at after.memory p (suc k)) (pending after)
            (subst NoZero r.taken nz))
          r.ended
        ∙ ap (λ (c : List ℕ). some (print_string c s)) whole in
      line h' after text some_there r.in_line
        (echo_round-read f h h' t p after l e (ground (arith, ne)) printed)
        (r.taken
          ∙ ap (λ (c : List ℕ). c ++ pending after) whole
          ∙ ap (λ (c : List ℕ). l ++ c)
              (sym (
                chars-kept after.memory _ after.out_count (after.in_count - after.out_count)
                  (λ a q. print_string-above l s a on' q))))
]
