-- ===== src/System/Keys.antt =====
-- What the keyboard handler stores, and how a run of scancodes reads.
use mathlib.Core.Path.{ap₂}
use my_operating_system.Base.{
  ℕ, zero, suc, ◌+◌, ◌≤◌, ◌<◌, ◌≡◌, refl, ap, ◌∙◌, arith, Bool, true, false, Option, none, some,
  List, [], ◌∷◌, ◌++◌, length, set, get_or, get_or-set_self, get_or-set_ne, u8, ltb, if◌then◌else◌,
  ◌==◌, Bool-cases, inl, inr,
}
use my_operating_system.Io.{Trace, Device, inb, cli}
use my_operating_system.Keyboard.{
  Result, ok, fault, Keyboard, keyboard_handler_c, keyboard_isr, handle_scancode, append_char,
  scancode_to_char, look_up, plain_char, shifted_char, or_question, else_plain, map_size,
  scancode_map_indexes, scancode_map_values, shifted_scancode_map_indexes,
  shifted_scancode_map_values,
}
use my_operating_system.Terminal.Echo.{typed}
use my_operating_system.System.{pressed_key}

-- The character of a result; a fault has none.
abbrev pub value : Result ℕ → ℕ
value (ok c) = c
value fault = 0

-- The state of the shift key and the characters after a run of scancodes, the latest first.
pub decode : List ℕ → Bool × List ℕ
decode [] = (false, [])
decode (scancode ∷ earlier) =
    let (shifted, l) = decode earlier in
    let (r, shifted') = scancode_to_char shifted scancode in (shifted', l ++ (value r ∷ []))

-- Every value is a byte.
abbrev AreBytes : List ℕ → Type 0
AreBytes [] = Unit {0}
AreBytes (v ∷ vs) = (v < 256) × AreBytes vs

abbrev IsSmall : Result (Option ℕ) → Type 0
IsSmall fault = Unit {0}
IsSmall (ok none) = Unit {0}
IsSmall (ok (some v)) = v < 256

look_up-IsSmall : (n : ℕ) (is vs : List ℕ) (c : ℕ) → AreBytes vs → IsSmall (look_up n is vs c)
unfolding look_up
look_up-IsSmall zero is vs c b = tt
look_up-IsSmall (suc n) [] vs c b = tt
look_up-IsSmall (suc n) (i ∷ is) [] c b = tt
look_up-IsSmall (suc n) (i ∷ is) (v ∷ vs) c b = elim (Bool-cases (i == c)) [
  | inl e ↦ rw e b.0
  | inr e ↦ rw e (look_up-IsSmall n is vs c b.1)
]

or_question_small : (r : Result (Option ℕ)) → IsSmall r → value (or_question r) < 256
or_question_small fault h = omega arith
or_question_small (ok none) h = omega arith
or_question_small (ok (some v)) h = h

plain_char_small : (c : ℕ) → value (plain_char c) < 256
unfolding plain_char
plain_char_small c =
    or_question_small (look_up map_size scancode_map_indexes scancode_map_values c) (
      look_up-IsSmall map_size scancode_map_indexes scancode_map_values c
        (unfold scancode_map_values in omega arith))

else_plain_small : (r : Result (Option ℕ)) (c : ℕ) → IsSmall r → value (else_plain r c) < 256
else_plain_small fault c h = omega arith
else_plain_small (ok none) c h = plain_char_small c
else_plain_small (ok (some v)) c h = h

scancode_to_char_small : (shifted : Bool) (c : ℕ) → value (scancode_to_char shifted c).0 < 256
unfolding scancode_to_char shifted_char
scancode_to_char_small shifted c = ground (
  arith,
  plain_char_small c,
  else_plain_small (look_up map_size shifted_scancode_map_indexes shifted_scancode_map_values c) c (
      look_up-IsSmall map_size shifted_scancode_map_indexes shifted_scancode_map_values c
        (unfold shifted_scancode_map_values in omega arith)),
)

-- What a handled key leaves.
pub record Stored (c : ℕ) (k k' : Keyboard) : Type 0 where
  pub room : k.current_char_in < 500
  pub shift : k'.is_l_shifted ≡ (scancode_to_char k.is_l_shifted c).1
  pub count : k'.current_char_in ≡ k.current_char_in + 1
  pub stored :
      k'.char_buffer
      ≡ set k.char_buffer k.current_char_in (value (scancode_to_char k.is_l_shifted c).0)

append_char-Stored :
    (r : Result ℕ) (k k' : Keyboard)
    → append_char r k ≡ ok k'
    → (k.current_char_in < 500)
      × (k'.is_l_shifted ≡ k.is_l_shifted)
      × (k'.current_char_in ≡ k.current_char_in + 1)
      × (k'.char_buffer ≡ set k.char_buffer k.current_char_in (value r))
unfolding append_char
append_char-Stored fault k k' e = absurd (cc)
append_char-Stored (ok c) k k' e = ground arith

handle_scancode-Stored : (c : ℕ) (k k' : Keyboard) → handle_scancode c k ≡ ok k' → Stored c k k'
unfolding handle_scancode
handle_scancode-Stored c k k' e =
    let (r, shifted) = scancode_to_char k.is_l_shifted c in
    let (room, shift, count, stored) =
      append_char-Stored r (record k { is_l_shifted = shifted }) k' e in
    record { room = room; shift = shift; count = count; stored = stored }

-- The log of the scancodes does not matter.
logged-Stored :
    (logs : Bool) (log : List ℕ) (c n : ℕ) (k k' : Keyboard)
    → handle_scancode c
        (if logs then record k { scancode_buffer = log; current_scancode_in = n } else k)
      ≡ ok k'
    → Stored c k k'
logged-Stored true log c n k k' e =
    let s = handle_scancode-Stored c _ k' e in
    record { room = s.room; shift = s.shift; count = s.count; stored = s.stored }
logged-Stored false log c n k k' e = handle_scancode-Stored c k k' e

keyboard_handler_c-Stored :
    (dev : Device) (t t' : Trace) (k k' : Keyboard)
    → keyboard_handler_c dev t k ≡ (ok k', t')
    → Stored (u8 (dev t 0x60)) k k'
unfolding keyboard_handler_c inb
keyboard_handler_c-Stored dev t t' k k' e =
    logged-Stored (ltb k.current_scancode_in 999) _ (u8 (dev t 0x60)) _ k k'
      (ap (λ (p : Result Keyboard × Trace). p.0) e)

pub keyboard_isr-Stored :
    (dev : Device) (t t' : Trace) (k k' : Keyboard)
    → keyboard_isr dev t k ≡ (ok k', t')
    → Stored (pressed_key dev t) k k'
unfolding keyboard_isr
keyboard_isr-Stored dev t t' k k' e =
    let t1 = (inb dev 0x60 (cli ∷ t)).1 in
    let same = ap (λ (p : Result Keyboard × Trace). p.0) e in
    keyboard_handler_c-Stored dev t1 (keyboard_handler_c dev t1 k).1 k k'
      (ap (λ (r : Result Keyboard). (r, (keyboard_handler_c dev t1 k).1)) same)

typed-set : (l : List ℕ) (i n at v : ℕ) → i + n ≤ at → typed (set l at v) i n ≡ typed l i n
typed-set l i zero at v h = refl
typed-set l i (suc n) at v h =
    ground (arith, get_or-set_ne l at i v 0, typed-set l (i + 1) n at v (omega arith))

pub typed-snoc :
    (l : List ℕ) (i n j : ℕ) → j ≡ i + n → typed l i (suc n) ≡ typed l i n ++ (get_or l j 0 ∷ [])
typed-snoc l i zero j e = let same : j ≡ i = omega arith in rw same refl
typed-snoc l i (suc n) j e = ap (λ r. get_or l i 0 ∷ r) (typed-snoc l (i + 1) n j (omega arith))

-- A stored character comes after those typed before it.
pub typed-Stored :
    (c : ℕ) (k k' : Keyboard)
    → Stored c k k'
    → length k.char_buffer ≡ 500
    → (i n : ℕ) → i + n ≡ k.current_char_in
    → typed k'.char_buffer i (n + 1)
      ≡ typed k.char_buffer i n ++ (value (scancode_to_char k.is_l_shifted c).0 ∷ [])
typed-Stored c k k' s full i n e =
    let room = s.room in
    let more : n + 1 ≡ suc n = omega arith in
    let v = value (scancode_to_char k.is_l_shifted c).0 in
    let l = k.char_buffer in
    let at = k.current_char_in in
    rw (s.stored) (
      ap (λ (j : ℕ). typed (set l at v) i j) more
      ∙ typed-snoc (set l at v) i n at (omega arith)
      ∙ ap₂ (λ (xs : List ℕ) (c : ℕ). xs ++ (c ∷ [])) (typed-set l i n at v (omega arith))
          (get_or-set_self l at v 0 (omega arith)))

pub value_small : (shifted : Bool) (c : ℕ) → value (scancode_to_char shifted c).0 < 256
value_small shifted c = scancode_to_char_small shifted c

-- One more scancode.
pub decode-cons :
    (c : ℕ) (earlier l : List ℕ) (shifted : Bool)
    → decode earlier ≡ (shifted, l)
    → decode (c ∷ earlier)
      ≡ ((scancode_to_char shifted c).1, l ++ (value (scancode_to_char shifted c).0 ∷ []))
unfolding decode
decode-cons c earlier l shifted e = rw e refl

pub decode-nil : decode [] ≡ (false, [])
unfolding decode
decode-nil = refl
