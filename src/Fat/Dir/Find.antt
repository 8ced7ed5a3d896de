-- ===== src/Fat/Dir/Find.antt =====
-- What `find_parsed_dir_entry` finds.
use mathlib.Core.Path.{subst}
use my_operating_system.Base.{
  ℕ, zero, suc, ◌+◌, ◌<◌, ◌≡◌, ◌≢◌, ◌↔◌, ◌⊎◌, inl, inr, refl, ◌∙◌, ap, arith, Option, none, some,
  List, [], ◌∷◌, true, false, Bool-cases,
}
use my_operating_system.Base.Signed.{ℤ, pos, negsuc}
use my_operating_system.Memory.{Memory}
use my_operating_system.Text.{StrError, strcmp, str_none}
use my_operating_system.Text.Length.{IsText, SameText, strcmp_lem}
use my_operating_system.Machine.{Machine, ◌>>=◌, fat16_ok, fat16_fail}
use my_operating_system.Fat.{ok, entry_not_found}
use my_operating_system.Fat.Dir.{
  ParsedDirEntry, ParsedDir, call_strcmp, is_zero, find_in, find_parsed_dir_entry,
}

-- The text at `p` is that at `name`.
abbrev pub Same : Memory → ℕ → ℕ → Type 0
Same m p name = (k : ℕ) × IsText m p k × SameText m p name k

-- The names of the entries are texts, for which the steps of `strcmp` are enough.
pub data AreNamed (fuel : ℕ) (m : Memory) : List ParsedDirEntry → Type 0 where
  nil : AreNamed fuel m []
  cons :
      {e : ParsedDirEntry} {es : List ParsedDirEntry} {k : ℕ}
      → e.name ≢ 0
      → IsText m e.name k
      → k < fuel
      → AreNamed fuel m es
      → AreNamed fuel m (e ∷ es)

-- The first entry with the name, or none.
pub data First (m : Memory) (name : ℕ) : List ParsedDirEntry → Option ParsedDirEntry → Type 0 where
  nowhere : First m name [] none
  here :
      {e : ParsedDirEntry} {es : List ParsedDirEntry}
      → Same m e.name name
      → First m name (e ∷ es) (some e)
  later :
      {e : ParsedDirEntry} {es : List ParsedDirEntry} {o : Option ParsedDirEntry}
      → ¬ Same m e.name name
      → First m name es o
      → First m name (e ∷ es) o

-- A text has one length.
IsText-length : (m : Memory) (p k n : ℕ) → IsText m p k → IsText m p n → k ≡ n
IsText-length m p zero zero t u = refl
IsText-length m p zero (suc n) t u = absurd (u.0 t)
IsText-length m p (suc k) zero t u = absurd (t.0 u)
IsText-length m p (suc k) (suc n) t u =
    let e = IsText-length m (p + 1) k n t.1 u.1 in omega (arith, e)

is_zero_iff : (d : ℤ) → (is_zero d ≡ true) ↔ (d ≡ pos 0)
is_zero_iff (pos n) = (λ e. ap pos (ground (arith, e)), λ e. ap is_zero e)
is_zero_iff (negsuc n) = (λ e. absurd (cc), λ e. ap is_zero e)

-- One comparison: on, with the error variable of the strings, to the entry or to the rest.
compared :
    (fuel : ℕ) (e : ParsedDirEntry) (es : List ParsedDirEntry) (name : ℕ) (s : Machine) (d : ℤ)
    → strcmp fuel s.ata.memory e.name name ≡ (str_none, some d)
    → ((is_zero d ≡ true)
        → find_in fuel (e ∷ es) name s
          ≡ some (some e, record s { str_error = str_none; fat_error = ok }))
      × ((is_zero d ≡ false)
          → find_in fuel (e ∷ es) name s ≡ find_in fuel es name (record s { str_error = str_none }))
unfolding find_in fat16_ok
compared fuel e es name s d c = (
  λ z.
      rw (find_in, ◌>>=◌, call_strcmp, c, z)
        (ap
          (λ (x : StrError × Option ℤ). some (some e, record s { str_error = x.0; fat_error = ok }))
          c),
  λ z.
      rw (find_in, ◌>>=◌, call_strcmp, c, z)
        (ap (λ (x : StrError × Option ℤ). find_in fuel es name (record s { str_error = x.0 })) c),
)

-- The result of a search, with the memory as before and the error variable set.
abbrev pub Finds :
    ℕ → List ParsedDirEntry → Machine → Option (Option ParsedDirEntry × Machine) → Type 0
Finds name es s r =
    (o : Option ParsedDirEntry) × (s' : Machine) × (r ≡ some (o, s'))
    × First s.ata.memory name es o
    × (s'.ata.memory ≡ s.ata.memory)
    × (((o ≡ none) × (s'.fat_error ≡ entry_not_found)) ⊎ ((o ≢ none) × (s'.fat_error ≡ ok)))

find_in_lem :
    (fuel : ℕ) (es : List ParsedDirEntry) (name : ℕ) (s : Machine)
    → name ≢ 0
    → AreNamed fuel s.ata.memory es
    → Finds name es s (find_in fuel es name s)
find_in_lem fuel [] name s ne nil = (
  none,
  record s { fat_error = entry_not_found },
  unfold find_in fat16_fail in refl,
  nowhere,
  refl,
  inl (refl, refl),
)
find_in_lem fuel (e ∷ es) name s ne (cons {k = k} not_null text short rest) =
    let m = s.ata.memory in
    let (d, runs, same) = strcmp_lem fuel k m e.name name not_null ne text short in
    let (found, passed) = compared fuel e es name s d runs in
    elim (Bool-cases (is_zero d)) [
      | inl z ↦ (
        some e,
        _,
        found z,
        here (k, text, same.0 ((is_zero_iff d).0 z)),
        refl,
        inr ((λ q. absurd (cc)), refl),
      )
      | inr z ↦
          let (o, s', r, f, kept, err) =
            find_in_lem fuel es name (record s { str_error = str_none }) ne rest in
          let differ : ¬ Same m e.name name = λ (n, t, eq).
            let len = IsText-length m e.name n k t text in
            let read = subst (λ j. SameText m e.name name j) len eq in
            let equal = (is_zero_iff d).1 (same.1 read) in absurd (cc) in
          (o, s', passed z ∙ r, later differ f, kept, err)
    ]

-- `find_parsed_dir_entry`, for a directory whose entries' names are texts that the steps of `strcmp`
-- are enough for, returns the first entry with the name that is asked for and reports success; if no
-- entry has the name it returns none and reports that. The memory does not change.
pub find_parsed_dir_entry_lem :
    (fuel : ℕ) (dir : ParsedDir) (name : ℕ) (s : Machine)
    → name ≢ 0
    → AreNamed fuel s.ata.memory dir.list
    → Finds name dir.list s (find_parsed_dir_entry fuel dir name s)
unfolding find_parsed_dir_entry
find_parsed_dir_entry_lem fuel dir name s ne named = find_in_lem fuel dir.list name s ne named
