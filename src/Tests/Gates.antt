-- ===== src/Tests/Gates.antt =====
-- The engine and the endpoints, with one provider that vouches and one that does not.
use jit_access_broker.Prelude.{
  ◌≡◌, ◌↔◌, refl, true, false, none, some, [], ◌∷◌, Text, codes, str_eq, trim_space, trim_left,
  to_lower,
}
use jit_access_broker.Prelude.Dict.{lookup, insert}
use jit_access_broker.Models.{AccessRequest, ExtensionRequest, max_ttl}
use jit_access_broker.Providers.{ContextValidator, ok, err}
use jit_access_broker.Auth.{Engine, normal_type, consult, validate}
use jit_access_broker.Auth.Gate.{IsComplete, IsVouched, validate_iff}
use jit_access_broker.Store.{new, add, get, find_live}
use jit_access_broker.Store.Extension.{
  ExtendResult, extend, extend_by_ttl, move_expiry, reissue, max_extensions_for_ceiling,
  store_value,
}
use jit_access_broker.Store.Ceiling.{Granted}
use jit_access_broker.Api.{Server, HttpRequest, Decoder, Response}
use jit_access_broker.Api.Access.{
  grant, decide, request_access, extend_access, extend_validated, answer_extension,
}
use jit_access_broker.Api.Guards.{justified, request_access_granted}
use jit_access_broker.Api.Sessions.{revalidated, extend_access_renews, extend_access_shut_out}
use jit_access_broker.Tests.World.{World, issuer, background, minutes, empty_store, two_tokens}

abbrev pub quoted : Text → Text
quoted t = t

abbrev vouching : ContextValidator World
vouching = record { validate = λ user ref w. (ok (true, codes "on call"), w) }

abbrev doubting : ContextValidator World
doubting = record { validate = λ user ref w. (ok (false, codes "ticket closed"), w) }

abbrev pub engine : Engine World
engine = record { validators = (codes "pagerduty", vouching) ∷ (codes "jira", doubting) ∷ [] }

abbrev pub access_request : Text → AccessRequest
access_request type = record {
  user_identity = codes "ann";
  resource = codes "db";
  justification_type = type;
  justification_ref = codes "P1";
}

abbrev pub extension_request : Text → ExtensionRequest
extension_request type = record {
  token_id = codes "a";
  user_identity = codes "ann";
  justification_type = type;
  justification_ref = codes "P1";
}

-- The body of a request is its justification type.
abbrev pub decoder : Decoder
decoder = record {
  decode_access = λ body. ok (access_request body);
  decode_extension = λ body. ok (extension_request body);
  decode_break_glass = λ body. err (codes "unused");
}

abbrev pub server : Server World
server = record {
  engine = engine;
  issuer = issuer;
  ttl = max_ttl;
  audit_log = none;
  bg_manager = none;
}

abbrev pub post : Text → HttpRequest
post body = record { method = codes "POST"; path = []; body = body }

validate_iff_example :
    ((validate quoted engine (access_request (codes " PagerDuty")) tt).0.is_ok ≡ true) ↔ (
      IsComplete quoted engine (access_request (codes " PagerDuty")) tt
      × IsVouched quoted engine (access_request (codes " PagerDuty")) tt
      × ((validate quoted engine (access_request (codes " PagerDuty")) tt).1 ≡ none))
validate_iff_example = validate_iff quoted engine (access_request (codes " PagerDuty")) tt

request_access_granted_example :
    (req : AccessRequest) × (decoder.decode_access (codes "pagerduty") ≡ ok req)
    × IsComplete quoted engine req tt
    × IsVouched quoted engine req tt
    × (issued : _) × ((issuer.issue req.user_identity req.resource max_ttl
          (validate quoted engine req tt).2).0
        ≡ ok issued)
    × ((request_access server decoder quoted empty_store (post (codes "pagerduty")) tt).1
        ≡ add empty_store (justified issued req))
unfolding request_access decide grant validate consult normal_type trim_space trim_left to_lower
    lookup str_eq
request_access_granted_example =
    request_access_granted server decoder quoted empty_store (post (codes "pagerduty")) tt refl

-- Token `a`, extended in minute 5.
extend_access_renews_example :
    (req : ExtensionRequest) × (decoder.decode_extension (codes "pagerduty") ≡ ok req)
    × (b : _) × (find_live two_tokens req.token_id ≡ some b)
    × IsComplete quoted engine (revalidated req (two_tokens.memory b)) tt
    × IsVouched quoted engine (revalidated req (two_tokens.memory b)) tt
    × (x : ExtendResult) × Granted two_tokens
        (extend_access server decoder quoted two_tokens background
          (post (codes "pagerduty"))
          (minutes 5)
          (minutes 5)
          tt).1
        b
        x
unfolding extend_access extend_validated answer_extension validate consult normal_type trim_space
    trim_left to_lower lookup str_eq new add insert get find_live extend extend_by_ttl move_expiry
    reissue max_extensions_for_ceiling store_value
extend_access_renews_example =
    extend_access_renews server decoder quoted two_tokens background (post (codes "pagerduty"))
      (minutes 5) (minutes 5) tt _ refl refl

extend_access_shut_out_example :
    let (answer, s', w'') =
      extend_access server decoder quoted two_tokens background
        (post (codes "jira"))
        (minutes 5)
        (minutes 5)
        tt in
    ((a : Response) × (answer ≡ some a) × (a.status ≡ 403)) × (get s' (codes "a") ≡ none)
unfolding validate consult normal_type trim_space trim_left to_lower lookup str_eq new add insert
    get find_live
extend_access_shut_out_example =
    extend_access_shut_out server decoder quoted two_tokens background (post (codes "jira"))
      (minutes 5) (minutes 5) tt tt (extension_request (codes "jira")) (two_tokens.memory 0)
      (record {
        is_ok = false;
        reason = codes "ticket closed";
        provider = codes "jira";
        ref = codes "P1";
      })
      refl refl refl refl refl refl
