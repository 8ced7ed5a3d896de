-- ===== src/System/Round.antt =====
-- The statements of a round of `stdin_loop`, one after the other, and the round as a whole.
use mathlib.Core.Path.{subst}
use my_operating_system.Base.{
  ℕ, ◌<◌, ◌≡◌, refl, sym, ◌∙◌, get_or, if◌then◌else◌, Bool-cases, inl, inr,
}
use my_operating_system.Stdin.{Stdin, stdin_insert}
use my_operating_system.System.{
  Hand, empty, shown, System, buffer, take, show, insert, Reach, here, next, take_char, stored,
  count, is_kept, store_char, with_stdin, print,
}
use my_operating_system.System.Insert.{stdin_insert-kept, stdin_insert-dropped, store_char-dropped}

-- The statements of one round of `stdin_loop` with no interrupt between them: the character is shown,
-- and then inserted.
abbrev shown_char : System → System
shown_char s =
    let c = get_or (buffer s) s.terminal.current_char_out 0 in
    record (take_char s) { terminal = print c 0x0F (take_char s).terminal; hand = shown c }

abbrev pub round : System → System
round s =
    let c = get_or (buffer s) s.terminal.current_char_out 0 in
    let t = shown_char s in with_stdin (stdin_insert c t.terminal.stdin) empty t

-- The statements of `stdin_insert`, whatever its tests give.
pub Reach-stdin_insert :
    (c : ℕ) (s : System)
    → s.tasks.running_task ≡ 1
    → s.hand ≡ shown c
    → Reach s (with_stdin (stdin_insert c s.terminal.stdin) empty s)
Reach-stdin_insert c s run e =
    let p = s.terminal.stdin in
    let stored_one : Reach s
        (with_stdin (store_char c p) (if is_kept c p then stored c else empty) s) =
      next here (insert run e) in
    elim (Bool-cases (is_kept c p)) [
      | inl kept ↦
          subst (λ (q : Stdin). Reach s (with_stdin q empty s)) (stdin_insert-kept c p kept)
            (next stored_one (count {c = c} run (rw kept refl)))
      | inr dropped ↦
          subst (λ (q : Stdin). Reach s (with_stdin q empty s))
            (store_char-dropped c p dropped ∙ sym (stdin_insert-dropped c p dropped))
            (subst (λ (h : Hand). Reach s (with_stdin (store_char c p) h s)) (rw dropped refl)
              stored_one)
    ]

pub Reach-trans : (s t u : System) → Reach s t → Reach t u → Reach s u
Reach-trans s _ u r here = r
Reach-trans s t _ r (next {t = v} {u = u} q st) = next (Reach-trans s t v r q) st

pub Reach-round :
    (s : System)
    → s.tasks.running_task ≡ 1
    → s.hand ≡ empty
    → s.terminal.current_char_out < s.terminal.keyboard.current_char_in
    → Reach s (round s)
Reach-round s run e lt =
    let c = get_or (buffer s) s.terminal.current_char_out 0 in
    Reach-trans s (shown_char s) (round s)
      (next (next here (take run e lt)) (show {c = c} run refl))
      (Reach-stdin_insert c (shown_char s) run refl)
