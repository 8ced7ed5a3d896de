-- ===== src/Text/Split/Pieces.antt =====
-- What a text is split into.
use my_operating_system.Base.{ℕ, List, [], ◌∷◌, ◌++◌, ◌==◌, if◌then◌else◌}

-- A piece of no characters is left out.
abbrev pub piece : List ℕ → List (List ℕ)
piece [] = []
piece (c ∷ cs) = (c ∷ cs) ∷ []

-- The pieces of a text between its delimiters, where the first of them begins with `cur`.
abbrev pub pieces : ℕ → List ℕ → List ℕ → List (List ℕ)
pieces d cur [] = piece cur
pieces d cur (c ∷ cs) =
    let next = pieces d [] cs in
    let longer = pieces d (cur ++ (c ∷ [])) cs in if c == d then piece cur ++ next else longer
