-- ===== src/Slack/Commands.antt =====
-- What ParseCommandText accepts.
use jit_access_broker.Prelude.{
  ◌≡◌, refl, sym, ◌∙◌, List, [], ◌∷◌, ◌++◌, arith, inl, inr, Text, trim_space,
}
use jit_access_broker.Prelude.Fields.{fields, IsWord}
use jit_access_broker.Prelude.Fields.Words.{
  fields-IsWord, fields-word, fields-last, fields-trim_space, fields-space,
}
use jit_access_broker.Providers.{ok}
use jit_access_broker.Slack.{first_three, parse_command_text}

-- A command is read back as it was written: three words with a space between them are the resource,
-- the type and the reference, also with white space around them or more text behind a space.
pub parse_command_text_spaced :
    (resource jtype jref rest : Text)
    → IsWord resource
    → IsWord jtype
    → IsWord jref
    → (parse_command_text (resource ++ b' ' ∷ (jtype ++ b' ' ∷ jref)) ≡ ok (resource, jtype, jref))
      × (parse_command_text (b' ' ∷ (resource ++ b' ' ∷ (jtype ++ b' ' ∷ (jref ++ b' ' ∷ rest))))
          ≡ ok (resource, jtype, jref))
unfolding parse_command_text
parse_command_text_spaced resource jtype jref rest r t f = (
  rw (fields-trim_space, fields-word resource _ r, fields-word jtype _ t, fields-last jref f) refl,
  rw
      (
        fields-trim_space,
        fields-space,
        fields-word resource _ r,
        fields-word jtype _ t,
        fields-word jref rest f,
      )
      refl,
)

first_three-ok :
    (parts : List Text) (a b c : Text)
    → first_three parts ≡ ok (a, b, c)
    → (rest : List Text) × (parts ≡ a ∷ b ∷ c ∷ rest)
first_three-ok [] a b c h = ground arith
first_three-ok (x ∷ []) a b c h = ground arith
first_three-ok (x ∷ y ∷ []) a b c h = ground arith
first_three-ok (x ∷ y ∷ z ∷ rest) a b c h = (rest, ground arith)

-- Whatever ParseCommandText answers is a non-empty word without white space, and the three are the
-- first three words of the text.
pub parse_command_text_sound :
    (text resource jtype jref : Text)
    → parse_command_text text ≡ ok (resource, jtype, jref)
    → IsWord resource
      × IsWord jtype
      × IsWord jref
      × (rest : List Text) × (fields text ≡ resource ∷ jtype ∷ jref ∷ rest)
unfolding parse_command_text
parse_command_text_sound text a b c h =
    let (rest, q) = first_three-ok (fields (trim_space text)) a b c h in
    let words = sym (fields-trim_space text) ∙ q in
    (
      fields-IsWord text a (rw words (inl refl)),
      fields-IsWord text b (rw words (inr (inl refl))),
      fields-IsWord text c (rw words (inr (inr (inl refl)))),
      rest,
      words,
    )
