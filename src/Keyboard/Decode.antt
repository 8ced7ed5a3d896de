-- ===== src/Keyboard/Decode.antt =====
-- What each scancode means.
use my_operating_system.Base.{
  ℕ, zero, suc, ◌≤◌, ◌<◌, ◌≡◌, ◌≢◌, refl, arith, Bool, true, Option, none, some, List, [], ◌∷◌,
  ◌==◌, length, ◌⊎◌, ◌↔◌, inl, inr, Bool-cases,
}
use my_operating_system.Keyboard.{
  Result, ok, fault, look_up, plain_char, shifted_char, scancode_to_char, or_question, map_size,
  scancode_map_indexes, scancode_map_values, shifted_scancode_map_indexes,
  shifted_scancode_map_values,
}

-- The scancode is not among the indexes of a table.
abbrev pub Missing : ℕ → List ℕ → Type 0
Missing c [] = Unit
Missing c (i ∷ is) = (i ≢ c) × Missing c is

-- A search of tables shorter than the number of rounds finds the scancode, or reads behind their
-- end.
look_up-short :
    (n : ℕ) (is vs : List ℕ) (c : ℕ)
    → length is ≡ length vs
    → length is < n
    → (Missing c is × (look_up n is vs c ≡ fault))
      ⊎ (¬ Missing c is × ((v : ℕ) × (look_up n is vs c ≡ ok (some v))))
unfolding look_up
look_up-short zero is vs c same short = absurd (omega arith)
look_up-short (suc n) [] vs c same short = inl (tt, refl)
look_up-short (suc n) (i ∷ is) [] c same short = absurd (omega arith)
look_up-short (suc n) (i ∷ is) (v ∷ vs) c same short = elim (Bool-cases (i == c)) [
  | inl e ↦ rw e (inr ((λ m. m.0 (ground arith)), (v, refl)))
  | inr ne ↦ rw ne (elim (look_up-short n is vs c (omega arith) (omega arith)) [
    | inl (m, f) ↦ inl ((ground arith, m), f)
    | inr (m, found) ↦ inr ((λ both. m both.1), found)
  ])
]

-- A search of tables at least as long as the number of rounds stays inside of them.
look_up-long :
    (n : ℕ) (is vs : List ℕ) (c : ℕ) → n ≤ length is → n ≤ length vs → look_up n is vs c ≢ fault
unfolding look_up
look_up-long zero is vs c hi hv = cc
look_up-long (suc n) [] vs c hi hv = absurd (omega arith)
look_up-long (suc n) (i ∷ is) [] c hi hv = absurd (omega arith)
look_up-long (suc n) (i ∷ is) (v ∷ vs) c hi hv =
    ground (arith, look_up-long n is vs c (omega arith) (omega arith))

or_question-ne-fault : (r : Result (Option ℕ)) → r ≢ fault → or_question r ≢ fault
or_question-ne-fault (ok none) h = cc
or_question-ne-fault (ok (some c)) h = cc
or_question-ne-fault fault h = absurd (h refl)

plain_char-ne-fault : (c : ℕ) → plain_char c ≢ fault
unfolding plain_char
plain_char-ne-fault c =
    or_question-ne-fault (look_up map_size scancode_map_indexes scancode_map_values c) (
      look_up-long map_size scancode_map_indexes scancode_map_values c
        (unfold scancode_map_indexes in omega arith) (unfold scancode_map_values in omega arith))

shifted_char-fault_iff : (c : ℕ) → (shifted_char c ≡ fault) ↔ Missing c shifted_scancode_map_indexes
unfolding shifted_char
shifted_char-fault_iff c =
    elim (look_up-short map_size shifted_scancode_map_indexes shifted_scancode_map_values c
      (unfold shifted_scancode_map_indexes shifted_scancode_map_values in refl)
      (unfold shifted_scancode_map_indexes in omega arith)) [
        | inl (m, f) ↦ ((λ _. m), (λ _. rw f))
        | inr (there, (v, found)) ↦ (rw found (λ e. absurd (cc)), (λ m. absurd (there m)))
      ]

-- Decoding reads behind the end of the tables exactly when the left shift key is held and the
-- scancode is one up to 0x80, not the key itself, that the shifted table does not list.
pub scancode_to_char-fault_iff :
    (shifted : Bool) (c : ℕ)
    → ((scancode_to_char shifted c).0 ≡ fault)
      ↔ ((shifted ≡ true) × (c ≤ 0x80) × (c ≢ 0x2A) × Missing c shifted_scancode_map_indexes)
unfolding scancode_to_char
scancode_to_char-fault_iff shifted c = (
  λ h. ground (arith, plain_char-ne-fault c, (shifted_char-fault_iff c).0),
  λ h. ground (arith, (shifted_char-fault_iff c).1 h.3),
)

-- The shift key is held after a scancode exactly if the scancode is its press, or it was held and
-- the scancode is not its release.
pub scancode_to_char-shift :
    (shifted : Bool) (c : ℕ)
    → ((scancode_to_char shifted c).1 ≡ true) ↔ ((c ≡ 0x2A) ⊎ ((shifted ≡ true) × (c ≢ 0xAA)))
unfolding scancode_to_char
scancode_to_char-shift shifted c = ground arith
