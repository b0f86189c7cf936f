-- ===== src/Prelude/Fields/Words.antt =====
-- What strings.Fields answers: only words, and the words that a space separates.
use mathlib.Core.List.{reverse, append_assoc, append-nil, reverse-cons, reverse-reverse}
use jit_access_broker.Prelude.{
  ◌≡◌, refl, ◌∙◌, ap, true, false, List, [], ◌∷◌, ◌++◌, arith, Bool-cases, inl, inr, In, Text,
  is_space, trim_left, trim_space,
}
use jit_access_broker.Prelude.Fields.{keep_word, fields_onto, fields, Solid, IsWord}

Solid-append : (w : Text) (c : _) → Solid w → is_space c ≡ false → Solid (w ++ c ∷ [])
Solid-append [] c h q = (q, tt)
Solid-append (d ∷ w) c (p, h) q = (p, Solid-append w c h q)

keep_word-IsWord :
    (cur : Text) (rest : List Text) (w : Text)
    → Solid cur
    → In w (keep_word cur rest)
    → (In w rest → IsWord w)
    → IsWord w
unfolding keep_word
keep_word-IsWord [] rest w h m k = k m
keep_word-IsWord (c ∷ cur) rest w h (inl e) k = rw (← e) (refl, h)
keep_word-IsWord (c ∷ cur) rest w h (inr m) k = k m

fields_onto-IsWord : (s cur w : Text) → Solid cur → In w (fields_onto cur s) → IsWord w
unfolding fields_onto
fields_onto-IsWord [] cur w h m = keep_word-IsWord cur [] w h m (λ n. absurd n)
fields_onto-IsWord (c ∷ s) cur w h m = elim (Bool-cases (is_space c)) [
  | inl q ↦
      keep_word-IsWord cur (fields_onto [] s) w h (ground (arith, m)) (fields_onto-IsWord s [] w tt)
  | inr q ↦ fields_onto-IsWord s (cur ++ c ∷ []) w (Solid-append cur c h q) (ground (arith, m))
]

-- Every part that Fields answers is a word.
pub fields-IsWord : (s w : Text) → In w (fields s) → IsWord w
unfolding fields
fields-IsWord s w m = fields_onto-IsWord s [] w tt m

fields_onto-Solid : (w s cur : Text) → Solid w → fields_onto cur (w ++ s) ≡ fields_onto (cur ++ w) s
unfolding fields_onto
fields_onto-Solid [] s cur h = rw append-nil
fields_onto-Solid (c ∷ w) s cur (q, h) =
    ground (arith, fields_onto-Solid w s (cur ++ c ∷ []) h, append_assoc cur (c ∷ []) w)

-- A word and a space in front of a text are one more word.
pub fields-word : (w s : Text) → IsWord w → fields (w ++ b' ' ∷ s) ≡ w ∷ fields s
unfolding fields fields_onto keep_word
fields-word w s (n, h) = ground (arith, fields_onto-Solid w (b' ' ∷ s) [] h)

pub fields-last : (w : Text) → IsWord w → fields w ≡ w ∷ []
unfolding fields fields_onto keep_word
fields-last w (n, h) = ground (arith, fields_onto-Solid w [] [] h, append-nil w)

fields_onto-blank :
    (s cur : Text) (c : _) → is_space c ≡ true → fields_onto cur (s ++ c ∷ []) ≡ fields_onto cur s
unfolding fields_onto keep_word
fields_onto-blank [] cur c q = ground arith
fields_onto-blank (d ∷ s) cur c q =
    ground (arith, fields_onto-blank s [] c q, fields_onto-blank s (cur ++ d ∷ []) c q)

fields-trim_left : (s : Text) → fields (trim_left s) ≡ fields s
unfolding fields fields_onto keep_word trim_left
fields-trim_left [] = refl
fields-trim_left (c ∷ s) = ground (arith, fields-trim_left s)

fields-trim_right : (s : Text) → fields (reverse (trim_left s)) ≡ fields (reverse s)
unfolding fields trim_left
fields-trim_right [] = refl
fields-trim_right (c ∷ s) = elim (Bool-cases (is_space c)) [
  | inl q ↦
      ground (arith, fields-trim_right s, reverse-cons c s, fields_onto-blank (reverse s) [] c q)
  | inr q ↦ ground arith
]

-- TrimSpace does not matter to Fields.
pub fields-trim_space : (s : Text) → fields (trim_space s) ≡ fields s
unfolding trim_space
fields-trim_space s =
    fields-trim_right (reverse (trim_left s))
    ∙ ap fields (reverse-reverse (trim_left s))
    ∙ fields-trim_left s

-- A space in front of a text adds no word.
pub fields-space : (s : Text) → fields (b' ' ∷ s) ≡ fields s
unfolding fields fields_onto keep_word
fields-space s = refl
