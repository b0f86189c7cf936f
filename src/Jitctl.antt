-- ===== src/Jitctl.antt =====
-- cmd/jitctl/main.go: the command line client. json.Marshal is a parameter at the two bodies.
pub mod Reach
use jit_access_broker.Prelude.{
  ℕ, Bool, ◌||◌, Option, none, some, List, [], ◌∷◌, ◌++◌, if◌then◌else◌, Text, codes, is_empty,
  str_eq, decimal_ℕ,
}
use jit_access_broker.Models.{AccessRequest, ExtensionRequest}
use jit_access_broker.Providers.{Result, ok, err}
use jit_access_broker.Providers.Http.{HttpCall, HttpReply, HttpClient, Network}

-- The flags. The broker's default is http://localhost:8080, that of the others is empty.
pub record Flags : Type 0 where
  pub cmd : Text
  pub broker : Text
  pub user : Text
  pub resource : Text
  pub j_type : Text
  pub ref : Text
  pub id : Text

-- What the switch over the command decides: a message and exit status 1, or a call.
pub data Plan : Type 0 where
  refused : Text → Plan
  posts : Text → Option Text → Plan
  gets : Text → Plan

module _ (marshal_access : AccessRequest → Text) (marshal_extension : ExtensionRequest → Text) where
  abbrev pub request_body : Flags → AccessRequest
  request_body f = record {
    user_identity = f.user;
    resource = f.resource;
    justification_type = f.j_type;
    justification_ref = f.ref;
  }

  abbrev pub extend_body : Flags → ExtensionRequest
  extend_body f = record {
    token_id = f.id;
    user_identity = f.user;
    justification_type = f.j_type;
    justification_ref = f.ref;
  }

  abbrev request_plan : Flags → Plan
  request_plan f =
      if is_empty f.user || is_empty f.resource || is_empty f.j_type || is_empty f.ref
      then refused (codes "request requires --user, --resource, --type, --ref")
      else posts (f.broker ++ codes "/api/v1/access/request")
          (some (marshal_access (request_body f)))

  abbrev extend_plan : Flags → Plan
  extend_plan f =
      if is_empty f.id || is_empty f.user || is_empty f.j_type || is_empty f.ref
      then refused (codes "extend requires --id, --user, --type, --ref")
      else posts (f.broker ++ codes "/api/v1/access/extend")
          (some (marshal_extension (extend_body f)))

  abbrev revoke_plan : Flags → Plan
  revoke_plan f =
      if is_empty f.id
      then refused (codes "revoke requires --id")
      else posts (f.broker ++ codes "/api/v1/access/revoke/" ++ f.id) none

  -- The switch of main.
  unfoldable pub plan : Flags → Plan
  plan f =
      if str_eq f.cmd (codes "request")
      then request_plan f
      else if str_eq f.cmd (codes "extend")
      then extend_plan f
      else if str_eq f.cmd (codes "list")
      then gets (f.broker ++ codes "/api/v1/access/tokens")
      else if str_eq f.cmd (codes "revoke")
      then revoke_plan f
      else if str_eq f.cmd (codes "health")
      then gets (f.broker ++ codes "/healthz")
      else refused (codes "unknown --cmd. Use: request|extend|list|revoke|health")

module _ {W : Type 0} (net : Network W) (client : HttpClient W) where
  abbrev shown : Result HttpReply → Text
  shown (err e) = codes "error: " ++ e
  shown (ok reply) = codes "HTTP " ++ decimal_ℕ reply.status ++ codes ": " ++ reply.body

  abbrev send_call : HttpCall → W → Text × W
  send_call call w = elim (net.bad_request call.method call.url) [
    | some e ↦ (codes "error: " ++ e, w)
    | none ↦ let (answer, w') = client.send call w in (shown answer, w')
  ]

  -- A nil body is an empty one.
  abbrev body_or_none : Option Text → Text
  body_or_none none = []
  body_or_none (some b) = b

  -- postJSON
  unfoldable pub post_json : Text → Option Text → W → Text × W
  post_json url body = send_call (record {
    method = codes "POST";
    url = url;
    headers = (codes "Content-Type", codes "application/json") ∷ [];
    body = body_or_none body;
  })

  -- getJSON
  unfoldable pub get_json : Text → W → Text × W
  get_json url = send_call (record { method = codes "GET"; url = url; headers = []; body = [] })

  -- What main prints, or the message of an exit with status 1.
  unfoldable pub run_plan : Plan → W → Result Text × W
  unfolding post_json get_json
  run_plan (refused message) w = (err message, w)
  run_plan (posts url body) w = let (out, w') = post_json url body w in (ok out, w')
  run_plan (gets url) w = let (out, w') = get_json url w in (ok out, w')
