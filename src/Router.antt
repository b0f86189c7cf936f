-- ===== src/Router.antt =====
-- The Router of api/server.go, with the Slack handler that it may mount. http.ServeMux is modelled
-- at the paths that it does not clean: a path with `//`, `.` or `..` is answered by a redirect to its
-- clean form, which is left out.
use jit_access_broker.Prelude.{
  ℕ, Bool, true, false, Option, none, some, List, if◌then◌else◌, Text, codes, str_eq, starts_with,
}
use jit_access_broker.Models.{Instant}
use jit_access_broker.Providers.{Result, Context}
use jit_access_broker.Store.{Store}
use jit_access_broker.Api.{
  Server, HttpRequest, Decoder, Response, healthz, list_tokens, revoke_token, revoke_path,
}
use jit_access_broker.Api.Access.{request_access, extend_access, break_glass_activate}
use jit_access_broker.Slack.{Handler, SlackAnswer, handle}

-- The handlers that Router registers.
pub data Endpoint : Type 0 where
  to_healthz to_request to_extend to_tokens to_revoke to_break_glass to_slack : Endpoint

-- The pattern that ends in a slash takes every path below it, the others one path each, and no path
-- has two patterns. The Slack pattern is registered if there is a handler.
unfoldable pub route : Bool → Text → Option Endpoint
route has_slack path =
    if str_eq path (codes "/healthz")
    then some to_healthz
    else if str_eq path (codes "/api/v1/access/request")
    then some to_request
    else if str_eq path (codes "/api/v1/access/extend")
    then some to_extend
    else if str_eq path (codes "/api/v1/access/tokens")
    then some to_tokens
    else if starts_with path revoke_path
    then some to_revoke
    else if str_eq path (codes "/api/v1/breakglass/activate")
    then some to_break_glass
    else if str_eq path (codes "/slack/command")
    then (if has_slack then some to_slack else none)
    else none

-- What a client gets; `panicked` is Extend's division by a zero TTL. ServeMux answers 404 itself, and
-- redirects the revoke path without its slash.
pub data Reply : Type 0 where
  replied : Response → Reply
  slack_replied : SlackAnswer → Reply
  panicked not_found moved_to_revoke : Reply

abbrev reply_or_panic : Option Response → Reply
reply_or_panic none = panicked
reply_or_panic (some a) = replied a

abbrev pub is_some : {A : Type 0} → Option A → Bool
is_some none = false
is_some (some a) = true

abbrev revoke_path_bare : Text
revoke_path_bare = codes "/api/v1/access/revoke"

-- The libraries that the handlers call.
pub record Libraries : Type 0 where
  pub json : Decoder
  pub quote : Text → Text
  pub path_escape : Text → Text
  pub rfc3339 : Instant → Text
  pub parse_form : HttpRequest → Result (List (Text × Text))
  pub ed25519 : List ℕ → Text → List ℕ → Bool

module _ {W : Type 0} (lib : Libraries) (srv : Server W) (slack : Option (Handler W)) where
  -- A handler's answer, in a store and a world.
  unfoldable pub dispatch :
      Endpoint → Store W → Context W → HttpRequest → Instant → Instant → W → Reply × Store W × W
  dispatch to_healthz s ctx r now later w = (replied (healthz r), s, w)
  dispatch to_request s ctx r now later w =
      let (a, s', w') = request_access srv lib.json lib.quote s r w in (replied a, s', w')
  dispatch to_extend s ctx r now later w =
      let (a, s', w') = extend_access srv lib.json lib.quote s ctx r now later w in
      (reply_or_panic a, s', w')
  dispatch to_tokens s ctx r now later w = (replied (list_tokens s r), s, w)
  dispatch to_revoke s ctx r now later w =
      let (a, s', w') = revoke_token s ctx r w in (replied a, s', w')
  dispatch to_break_glass s ctx r now later w =
      let (a, s', w') = break_glass_activate srv lib.json lib.quote lib.ed25519 s r now w in
      (replied a, s', w')
  dispatch to_slack s ctx r now later w = elim slack [
    | none ↦ (not_found, s, w)
    | some h ↦
        let (a, s', w') =
          handle h lib.rfc3339 lib.quote lib.path_escape s
            (record { method = r.method; form = lib.parse_form r }) w in
        (slack_replied a, s', w')
  ]

  -- A request to Router; `now` and `later` are what the handlers read from the clock.
  unfoldable pub serve :
      Store W → Context W → HttpRequest → Instant → Instant → W → Reply × Store W × W
  unfolding dispatch route
  serve s ctx r now later w = elim (route (is_some slack) r.path) [
    | some e ↦ dispatch e s ctx r now later w
    | none ↦ if str_eq r.path revoke_path_bare then (moved_to_revoke, s, w) else (not_found, s, w)
  ]
