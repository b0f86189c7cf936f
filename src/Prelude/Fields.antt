-- ===== src/Prelude/Fields.antt =====
-- strings.Fields: the words of a text between white space.
pub mod Words
use mathlib.Core.List.{reverse}
use jit_access_broker.Prelude.{
  ℕ, ◌≡◌, refl, ◌∙◌, ap, Bool, true, false, List, [], ◌∷◌, ◌++◌, if◌then◌else◌, arith, Bool-cases,
  inl, inr, Text, is_empty, is_space, trim_left, trim_space,
}

-- The word so far, unless it is empty, before the words that follow.
unfoldable pub keep_word : Text → List Text → List Text
keep_word cur rest = if is_empty cur then rest else cur ∷ rest

-- The words of the text, with the word so far in front.
unfoldable pub fields_onto : Text → Text → List Text
unfolding keep_word
fields_onto cur [] = keep_word cur []
fields_onto cur (c ∷ s) =
    let next_word = keep_word cur (fields_onto [] s) in
    let longer = fields_onto (cur ++ c ∷ []) s in if is_space c then next_word else longer

unfoldable pub fields : Text → List Text
unfolding fields_onto
fields s = fields_onto [] s

-- No character of the text is white space.
abbrev pub Solid : Text → Type 0
Solid [] = Unit {0}
Solid (c ∷ s) = (is_space c ≡ false) × Solid s

-- A word, as Fields answers it.
abbrev pub IsWord : Text → Type 0
IsWord w = (is_empty w ≡ false) × Solid w
