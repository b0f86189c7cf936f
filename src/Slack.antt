-- ===== src/Slack.antt =====
-- slack/slack.go: the slash command. A request is its method and what ParseForm makes of its body;
-- fmt's `%q`, url.PathEscape and the formatting of a time are parameters.
pub mod Commands
pub mod Guards
pub mod Parity
use jit_access_broker.Prelude.{
  ℕ, zero, suc, ◌/◌, ◌-◌, Bool, true, false, not, ◌&&◌, Option, none, some, List, [], ◌∷◌, ◌++◌,
  ltb, leb, if◌then◌else◌, ℤ, pos, negsuc, sub_ℕ, Text, codes, is_empty, str_eq, trim_space,
  decimal,
}
use jit_access_broker.Prelude.Dict.{lookup}
use jit_access_broker.Prelude.Fields.{fields}
use jit_access_broker.Models.{Instant, IssuedToken, AccessRequest, minute}
use jit_access_broker.Providers.{Result, ok, err, TokenIssuer}
use jit_access_broker.Auth.{Engine, ValidationResult, validate}
use jit_access_broker.Store.{Store, add}

-- The Handler without its Store, which is passed along. A nil UserEmailMap is `none`.
pub record Handler (W : Type 0) : Type 0 where
  pub engine : Engine W
  pub issuer : TokenIssuer W
  pub ttl : ℤ
  pub signing_secret : Text
  pub user_email_map : Option (List (Text × Text))
  pub bot_token : Text

pub record SlashCommand : Type 0 where
  pub token : Text
  pub command : Text
  pub text : Text
  pub user_id : Text
  pub user_name : Text
  pub response_url : Text

-- The *http.Request: its method, and the error of ParseForm or the pairs of PostForm.
pub record FormRequest : Type 0 where
  pub method : Text
  pub form : Result (List (Text × Text))

-- PostFormValue: the first value of the key, or "".
abbrev pub post_form_value : List (Text × Text) → Text → Text
post_form_value form key = elim (lookup key form) [ none ↦ [] | some v ↦ v ]

-- ParseSlackCommand
unfoldable pub parse_slack_command : FormRequest → Result SlashCommand
parse_slack_command r = elim r.form [
  | err e ↦ err (codes "parse form: " ++ e)
  | ok form ↦ ok (record {
    token = post_form_value form (codes "token");
    command = post_form_value form (codes "command");
    text = post_form_value form (codes "text");
    user_id = post_form_value form (codes "user_id");
    user_name = post_form_value form (codes "user_name");
    response_url = post_form_value form (codes "response_url");
  })
]

abbrev first_three : List Text → Result (Text × Text × Text)
first_three (a ∷ b ∷ c ∷ rest) = ok (a, b, c)
first_three _ = err (codes "usage: /jit <resource> <justification_type> <justification_ref>")

-- ParseCommandText: the resource, the type and the reference.
unfoldable pub parse_command_text : Text → Result (Text × Text × Text)
parse_command_text text = first_three (fields (trim_space text))

-- resolveEmail; the empty email is a failure.
unfoldable pub resolve_email : Option (List (Text × Text)) → Text → Text → Text
resolve_email none user_id user_name =
    if is_empty user_name then [] else user_name ++ codes "@slack.local"
resolve_email (some emails) user_id user_name = post_form_value emails user_id

-- The number of bytes of a code point in UTF-8.
abbrev utf8_width : ℕ → ℕ
utf8_width c = if ltb c 0x80 then 1 else if ltb c 0x800 then 2 else if ltb c 0x10000 then 3 else 4

abbrev replacements : ℕ → Text
replacements zero = []
replacements (suc n) = 0xFFFD ∷ replacements n

-- The first `n` bytes, as the JSON encoder writes them: each byte of a character that is cut in the
-- middle becomes U+FFFD.
abbrev first_bytes : ℕ → Text → Text
first_bytes n [] = []
first_bytes n (c ∷ s) =
    let rest = first_bytes (n - utf8_width c) s in
    if leb (utf8_width c) n then c ∷ rest else replacements n

abbrev fits : ℕ → Text → Bool
fits n [] = true
fits n (c ∷ s) = let rest = fits (n - utf8_width c) s in leb (utf8_width c) n && rest

-- truncate
unfoldable pub truncate : Text → ℕ → Text
truncate s n = if fits n s then s else first_bytes n s ++ codes "..."

-- int(d.Minutes()): towards zero. The float64 is exact enough below 2 ^ 23 minutes.
abbrev whole_minutes : ℤ → ℤ
whole_minutes (pos n) = pos (n / minute)
whole_minutes (negsuc n) = sub_ℕ 0 (suc n / minute)

pub record SlackResponse : Type 0 where
  pub response_type : Text
  pub text : Text

-- What is written: the X-Slack-Error header, if it is set, and the body. The status is always 200.
pub record SlackAnswer : Type 0 where
  pub error_header : Option Text
  pub body : SlackResponse

abbrev ephemeral : Text → SlackResponse
ephemeral text = record { response_type = codes "ephemeral"; text = text }

-- writeSlackResponse, which does not use `granted`, `token` and `tokenID`.
unfoldable pub write_slack_response : Bool → Text → Text → Text → SlackAnswer
write_slack_response granted msg token token_id = record {
  error_header = none;
  body = ephemeral msg;
}

-- writeSlackError
unfoldable pub write_slack_error : (Text → Text) → Text → SlackAnswer
write_slack_error path_escape msg = record {
  error_header = some (path_escape msg);
  body = ephemeral (codes "❌ " ++ msg);
}

-- U+FE0F, which draws the character before it as an emoji.
abbrev emoji_form : ℕ
emoji_form = 0xFE0F

-- The message of a grant.
abbrev granted_message : (Instant → Text) → IssuedToken → AccessRequest → ℤ → Text
granted_message rfc3339 tok req ttl =
    codes "✅ Access granted to *"
    ++ req.user_identity
    ++ codes "* for *"
    ++ req.resource
    ++ codes "*\n🎫 Token: `"
    ++ truncate tok.token 30
    ++ codes "`\n⏱"
    ++ emoji_form ∷ codes " Expires: "
    ++ rfc3339 tok.expires_at
    ++ codes " (TTL: "
    ++ decimal (whole_minutes ttl)
    ++ codes "m)"

-- The access request of a command.
abbrev pub command_request : Text → Text → Text → Text → AccessRequest
command_request email resource jtype jref = record {
  user_identity = email;
  resource = resource;
  justification_type = jtype;
  justification_ref = jref;
}

module _ {W : Type 0} (h : Handler W) (rfc3339 : Instant → Text) where
  -- Handle from the issuer's answer on.
  unfoldable pub slack_grant :
      Store W → AccessRequest → Result IssuedToken × W → SlackAnswer × Store W × W
  unfolding truncate write_slack_response
  slack_grant s req (err e, w) =
      (write_slack_response false (codes "❌ Token issue failed: " ++ e) [] [], s, w)
  slack_grant s req (ok issued, w) =
      let tok = record issued {
        justification_type = req.justification_type;
        justification_ref = req.justification_ref;
      } in
      (
        write_slack_response true (granted_message rfc3339 tok req h.ttl) tok.token tok.id,
        add s tok,
        w,
      )

  -- Handle from the engine's answer on.
  unfoldable pub slack_decide :
      Store W → AccessRequest → ValidationResult × Option Text × W → SlackAnswer × Store W × W
  unfolding slack_grant
  slack_decide s req (res, some e, w) = (
    write_slack_response false (codes "⚠" ++ emoji_form ∷ codes " Validation error: " ++ res.reason)
        [] [],
    s,
    w,
  )
  slack_decide s req (res, none, w) =
      if not res.is_ok
      then (write_slack_response false (codes "❌ Access denied: " ++ res.reason) [] [], s, w)
      else slack_grant s req (h.issuer.issue req.user_identity req.resource h.ttl w)

  module _ (quote path_escape : Text → Text) where
    -- Handle for a command with the right token.
    unfoldable pub run_command : Store W → SlashCommand → W → SlackAnswer × Store W × W
    unfolding slack_decide
    run_command s cmd w = elim (parse_command_text cmd.text) [
      | err e ↦ (write_slack_error path_escape e, s, w)
      | ok (resource, jtype, jref) ↦
          let email = resolve_email h.user_email_map cmd.user_id cmd.user_name in
          let req = command_request email resource jtype jref in
          if is_empty email
          then (
            write_slack_error path_escape (
                codes "no email mapping for Slack user "
                ++ cmd.user_id
                ++ codes " — add to slack.user_email_map in config"),
            s,
            w,
          )
          else slack_decide s req (validate quote h.engine req w)
    ]

    -- Handle
    unfoldable pub handle : Store W → FormRequest → W → SlackAnswer × Store W × W
    unfolding run_command
    handle s r w =
        if not (str_eq r.method (codes "POST"))
        then (write_slack_error path_escape (codes "method not allowed"), s, w)
        else elim (parse_slack_command r) [
          | err e ↦ (write_slack_error path_escape (codes "failed to parse command: " ++ e), s, w)
          | ok cmd ↦
              if not (is_empty h.signing_secret) && not (str_eq cmd.token h.signing_secret)
              then (write_slack_error path_escape (codes "invalid Slack token"), s, w)
              else run_command s cmd w
        ]
