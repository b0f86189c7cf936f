-- ===== src/Tests/Chat.antt =====
-- The slash command with a mapped user, a signing secret and a provider that vouches.
use jit_access_broker.Prelude.{
  ◌≡◌, refl, ◌⊎◌, inr, some, [], ◌∷◌, Text, codes, str_eq, trim_space, trim_left,
}
use jit_access_broker.Prelude.Dict.{lookup}
use jit_access_broker.Prelude.Fields.{keep_word, fields_onto, fields}
use jit_access_broker.Models.{Instant, IssuedToken, AccessRequest, max_ttl}
use jit_access_broker.Providers.{ok}
use jit_access_broker.Store.{add}
use jit_access_broker.Api.Access.{request_access}
use jit_access_broker.Api.Guards.{justified}
use jit_access_broker.Slack.{
  Handler, SlashCommand, FormRequest, parse_slack_command, parse_command_text, resolve_email,
  handle,
}
use jit_access_broker.Slack.Guards.{IsApproved, handle_guarded, handle_stranger}
use jit_access_broker.Slack.Parity.{handle-request_access}
use jit_access_broker.Tests.World.{World, issuer, empty_store}
use jit_access_broker.Tests.Gates.{quoted, engine, decoder, server, post}

abbrev handler : Handler World
handler = record {
  engine = engine;
  issuer = issuer;
  ttl = max_ttl;
  signing_secret = codes "s3";
  user_email_map = some ((codes "U1", codes "ann") ∷ []);
  bot_token = [];
}

abbrev dated : Instant → Text
dated t = codes "soon"

-- The command of a user with a token.
abbrev command_of : Text → Text → SlashCommand
command_of user token = record {
  token = token;
  command = [];
  text = codes "db pagerduty P1";
  user_id = user;
  user_name = codes "annie";
  response_url = [];
}

abbrev form_of : Text → Text → FormRequest
form_of user token = record {
  method = codes "POST";
  form = ok (
      (codes "token", token)
      ∷ (codes "text", codes "db pagerduty P1")
      ∷ (codes "user_id", user)
      ∷ (codes "user_name", codes "annie")
      ∷ []);
}

handle_guarded_example :
    let r = form_of (codes "U1") (codes "s3") in
    let s' = (handle handler dated quoted quoted empty_store r tt).1 in
    (s' ≡ empty_store)
    ⊎ ((r.method ≡ codes "POST")
        × (cmd : SlashCommand) × (parse_slack_command r ≡ ok cmd)
        × ((handler.signing_secret ≡ []) ⊎ (cmd.token ≡ handler.signing_secret))
        × (req : AccessRequest) × (issued : IssuedToken) × IsApproved handler dated quoted quoted
            empty_store tt cmd req issued
        × (s' ≡ add empty_store (justified issued req)))
handle_guarded_example =
    handle_guarded handler dated quoted quoted empty_store tt (form_of (codes "U1") (codes "s3"))

handle_stranger_example :
    let (answer, s', w') =
      handle handler dated quoted quoted empty_store (form_of (codes "U7") (codes "s3")) tt in
    (s' ≡ empty_store) × (w' ≡ tt)
unfolding lookup str_eq parse_slack_command
handle_stranger_example =
    handle_stranger handler dated quoted quoted empty_store tt (form_of (codes "U7") (codes "s3"))
      (command_of (codes "U7") (codes "s3")) refl (inr (_, refl, refl))

handle-request_access_example :
    (handle handler dated quoted quoted empty_store (form_of (codes "U1") (codes "s3")) tt).1
    ≡ (request_access server decoder quoted empty_store (post (codes "pagerduty")) tt).1
unfolding lookup str_eq parse_slack_command parse_command_text resolve_email fields fields_onto
    keep_word trim_space trim_left
handle-request_access_example =
    handle-request_access handler server dated decoder quoted quoted empty_store
      (form_of (codes "U1") (codes "s3")) (post (codes "pagerduty")) tt
      (command_of (codes "U1") (codes "s3")) (codes "db") (codes "pagerduty") (codes "P1")
      (refl, refl, refl) refl refl refl refl (cc) refl refl
