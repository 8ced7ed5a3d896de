-- ===== src/System/Running/Loop.antt =====
-- What `print` keeps of the running kernel, and the statements of `stdin_loop`.
use mathlib.Core.Path.{subst}
use my_operating_system.Base.{
  ℕ, suc, ◌+◌, ◌-◌, ◌≤◌, ◌<◌, ◌≡◌, refl, sym, ap, ◌∙◌, arith, List, [], ◌∷◌, ◌++◌, append_assoc,
  length, get_or, Bool, true, false, if◌then◌else◌,
}
use my_operating_system.Stdin.Fifo.{pending}
use my_operating_system.Terminal.Echo.{typed}
use my_operating_system.System.{
  Hand, empty, taken, shown, System, buffer, take_char, print, stored, is_kept, store_char,
  count_line, with_stdin, Draws,
}
use my_operating_system.System.Bytes.{print-IsSound, pending-print, Draws-IsSound, Draws-Drawn}
use my_operating_system.Keyboard.{Keyboard}
use my_operating_system.Terminal.{Terminal}
use my_operating_system.System.Insert.{store_char-Inserted}
use my_operating_system.System.Running.{visible, held, HoldsByte, IsRunning, visible-append}

-- A printed character changes neither what is pending nor what is typed; the hand may go on to
-- another that holds the same character.
pub print-IsRunning :
    (c color : ℕ) (hand : Hand) (s : System)
    → IsRunning s
    → held s.hand ≡ held hand
    → HoldsByte hand
    → IsRunning (record s { terminal = print c color s.terminal; hand = hand })
print-IsRunning c color hand s v e byte =
    let o = s.terminal.current_char_out in
    let n = s.terminal.keyboard.current_char_in in
    let p = pending s.terminal.stdin in
    let rest = typed (buffer s) o (n - o) in
    record {
      tasks = v.tasks;
      free = v.free;
      task_1 = v.task_1;
      sound = print-IsSound c color s.terminal v.sound;
      top = v.top;
      places = v.places;
      keys = v.keys;
      ordered = v.ordered;
      lag = subst (λ (l : List ℕ). s.terminal.stdin.in_count + length l ≤ o) e v.lag;
      hand_byte = byte;
      small = v.small;
      decoded = v.decoded;
      kept =
          v.kept
          ∙ ap (λ (l : List ℕ). s.delivered ++ (p ++ visible (l ++ rest))) e
          ∙ ap (λ (l : List ℕ). s.delivered ++ (l ++ visible (held hand ++ rest)))
              (sym (pending-print c color s.terminal v.sound));
    }

-- An access of an interrupted `put_char`.
pub access-IsRunning :
    (t : Terminal) (s : System)
    → IsRunning s
    → Draws s.terminal t
    → IsRunning (record s { terminal = t })
access-IsRunning t s v d =
    let same = Draws-Drawn s.terminal t d in
    let o = s.terminal.current_char_out in
    let p = pending s.terminal.stdin in
    let in_count = same.input in
    let out = same.taken in
    let lag = v.lag in
    let ordered = v.ordered in
    let keys = v.keys in
    let current = ap (λ (k : Keyboard). k.current_char_in) same.keyboard in
    record {
      tasks = v.tasks;
      free = v.free;
      task_1 = v.task_1;
      sound = Draws-IsSound s.terminal t v.sound d;
      top = v.top;
      places = rw (same.keyboard) v.places;
      keys = omega arith;
      ordered = omega arith;
      lag = omega arith;
      hand_byte = v.hand_byte;
      small = rw (same.keyboard) v.small;
      decoded = rw (same.keyboard) v.decoded;
      kept = rw (same.keyboard, same.pending, out) v.kept;
    }

-- The return of an interrupted `put_char`.
pub shown_at_last-IsRunning :
    (c : ℕ) (s : System) → IsRunning s → s.hand ≡ taken c → IsRunning (record s { hand = shown c })
shown_at_last-IsRunning c s v e =
    let o = s.terminal.current_char_out in
    let n = s.terminal.keyboard.current_char_in in
    let p = s.terminal.stdin in
    let rest = typed (buffer s) o (n - o) in
    let w = v.sound in
    record {
      tasks = v.tasks;
      free = v.free;
      task_1 = v.task_1;
      sound = record { screen = w.screen; stdin = w.stdin; bytes = w.bytes };
      top = v.top;
      places = v.places;
      keys = v.keys;
      ordered = v.ordered;
      lag = subst (λ (h : Hand). p.in_count + length (held h) ≤ o) e v.lag;
      hand_byte = subst HoldsByte e v.hand_byte;
      small = v.small;
      decoded = v.decoded;
      kept = v.kept ∙ ap (λ (h : Hand). s.delivered ++ (pending p ++ visible (held h ++ rest))) e;
    }

typed-cons :
    (l : List ℕ) (i n n' : ℕ) → n ≡ suc n' → typed l i n ≡ get_or l i 0 ∷ typed l (i + 1) n'
typed-cons l i n n' e = ap (λ (j : ℕ). typed l i j) e

pub take-IsRunning :
    (s : System)
    → IsRunning s
    → s.hand ≡ empty
    → s.terminal.current_char_out < s.terminal.keyboard.current_char_in
    → IsRunning (take_char s)
take-IsRunning s v e lt =
    let o = s.terminal.current_char_out in
    let n = s.terminal.keyboard.current_char_in in
    let w = v.sound in
    let lag : s.terminal.stdin.in_count + length (held empty) ≤ o =
      subst (λ (h : Hand). s.terminal.stdin.in_count + length (held h) ≤ o) e v.lag in
    let kept =
      subst
        (λ (h : Hand).
          visible (typed (buffer s) 0 n)
          ≡ s.delivered
            ++ (pending s.terminal.stdin ++ visible (held h ++ typed (buffer s) o (n - o))))
        e v.kept in
    record {
      tasks = v.tasks;
      free = v.free;
      task_1 = v.task_1;
      sound = record { screen = w.screen; stdin = w.stdin; bytes = w.bytes };
      top = v.top;
      places = v.places;
      keys = v.keys;
      ordered = omega arith;
      lag = omega (arith, lag);
      hand_byte = v.small o;
      small = v.small;
      decoded = v.decoded;
      kept =
          kept
          ∙ ap (λ (l : List ℕ). s.delivered ++ (pending s.terminal.stdin ++ visible l))
              (typed-cons (buffer s) o (n - o) (n - (o + 1)) (omega arith));
    }

pub show-IsRunning :
    (c : ℕ) (s : System)
    → IsRunning s
    → s.hand ≡ taken c
    → IsRunning (record s { terminal = print c 0x0F s.terminal; hand = shown c })
show-IsRunning c s v e =
    print-IsRunning c 0x0F (shown c) s v (ap held e) (subst HoldsByte e v.hand_byte)

-- Whatever the hand holds next, it is no character on its way.
next_hand : (b : Bool) (c : ℕ) → held (if b then stored c else empty) ≡ []
next_hand true c = refl
next_hand false c = refl

next_hand-HoldsByte : (b : Bool) (c : ℕ) → HoldsByte (if b then stored c else empty)
next_hand-HoldsByte true c = tt
next_hand-HoldsByte false c = tt

pub insert-IsRunning :
    (c : ℕ) (s : System)
    → IsRunning s
    → s.hand ≡ shown c
    → IsRunning (
        with_stdin
          (store_char c s.terminal.stdin)
          (if is_kept c s.terminal.stdin then stored c else empty)
          s)
insert-IsRunning c s v e =
    let o = s.terminal.current_char_out in
    let n = s.terminal.keyboard.current_char_in in
    let rest = typed (buffer s) o (n - o) in
    let w = v.sound in
    let p = s.terminal.stdin in
    let kept_one = is_kept c p in
    let lag : p.in_count + 1 ≤ o = subst (λ (h : Hand). p.in_count + length (held h) ≤ o) e v.lag in
    let keys = v.keys in
    let ordered = v.ordered in
    let i = store_char-Inserted c p w.stdin w.bytes (subst HoldsByte e v.hand_byte) (omega arith) in
    let count = i.count in
    let none_held : length (held (if kept_one then stored c else empty)) ≡ 0 =
      ap (λ (l : List ℕ). length l) (next_hand kept_one c) in
    record {
      tasks = v.tasks;
      free = v.free;
      task_1 = v.task_1;
      sound = record { screen = w.screen; stdin = i.valid; bytes = i.bytes };
      top = v.top;
      places = v.places;
      keys = v.keys;
      ordered = v.ordered;
      lag = omega (arith, none_held);
      hand_byte = next_hand-HoldsByte kept_one c;
      small = v.small;
      decoded = v.decoded;
      kept =
          v.kept
          ∙ ap (λ (h : Hand). s.delivered ++ (pending p ++ visible (held h ++ rest))) e
          ∙ ap (λ (l : List ℕ). s.delivered ++ (pending p ++ l)) (visible-append (c ∷ []) rest)
          ∙ ap (λ (l : List ℕ). s.delivered ++ l)
              (sym (append_assoc (pending p) (visible (c ∷ [])) (visible rest)))
          ∙ ap (λ (l : List ℕ). s.delivered ++ (l ++ visible rest)) (sym i.put)
          ∙ ap (λ (l : List ℕ). s.delivered ++ (pending (store_char c p) ++ visible (l ++ rest)))
              (sym (next_hand kept_one c));
    }

pub count-IsRunning :
    (c : ℕ) (s : System)
    → IsRunning s
    → s.hand ≡ stored c
    → IsRunning (with_stdin (count_line c s.terminal.stdin) empty s)
count-IsRunning c s v e =
    let o = s.terminal.current_char_out in
    let n = s.terminal.keyboard.current_char_in in
    let rest = typed (buffer s) o (n - o) in
    let w = v.sound in
    let p = s.terminal.stdin in
    let fifo = w.stdin in
    record {
      tasks = v.tasks;
      free = v.free;
      task_1 = v.task_1;
      sound = record {
        screen = w.screen;
        stdin = record { ordered = fifo.ordered; fits = fifo.fits };
        bytes = w.bytes;
      };
      top = v.top;
      places = v.places;
      keys = v.keys;
      ordered = v.ordered;
      lag = subst (λ (h : Hand). p.in_count + length (held h) ≤ o) e v.lag;
      hand_byte = tt;
      small = v.small;
      decoded = v.decoded;
      kept = v.kept ∙ ap (λ (h : Hand). s.delivered ++ (pending p ++ visible (held h ++ rest))) e;
    }
