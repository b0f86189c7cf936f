-- ===== src/Notifier/Sinks.antt =====
-- The sinks of notifier/notifier.go: the log, Slack's and Teams' webhooks. `show` is `%s` on a
-- Duration, and json.Marshal is a parameter at the two payloads.
use jit_access_broker.Prelude.{
  ℕ, suc, ◌+◌, ◌-◌, ◌%◌, ◌++◌, Option, none, some, [], ◌∷◌, ltb, leb, if◌then◌else◌, ℤ, pos, negsuc,
  sub_ℕ, Text, codes, is_empty, decimal_ℕ,
}
use jit_access_broker.Models.{IssuedToken, second}
use jit_access_broker.Providers.{Result, ok, err}
use jit_access_broker.Providers.Http.{HttpCall, HttpReply, HttpClient, Network}
use jit_access_broker.Notifier.{Notifier}

-- Duration.Round to a second: half away from zero, and at the end of int64 where that is passed.
abbrev rounded : ℕ → ℕ → ℕ
rounded n top =
    let r = n % second in
    if ltb (r + r) second then n - r else if leb (n - r + second) top then n - r + second else top

abbrev pub round_seconds : ℤ → ℤ
round_seconds (pos n) = pos (rounded n 9223372036854775807)
round_seconds (negsuc n) = sub_ℕ 0 (rounded (suc n) 9223372036854775808)

-- log.Println and fmt.Println.
pub record Console (W : Type 0) : Type 0 where
  pub log_line : Text → W → W
  pub print_line : Text → W → W

-- A sink with the URL of its webhook. The client that the first delivery stores in a sink without one
-- is &http.Client with five seconds of timeout.
pub record Webhook (W : Type 0) : Type 0 where
  pub url : Text
  pub client : Option (HttpClient W)

-- The payload of Teams.
pub record MessageCard : Type 0 where
  pub kind : Text
  pub context : Text
  pub summary : Text
  pub title : Text
  pub text : Text

abbrev holder : (ℤ → Text) → IssuedToken → ℤ → Text
holder show t left =
    codes "Token `"
    ++ t.id
    ++ codes "` (user: "
    ++ t.user
    ++ codes ", resource: "
    ++ t.resource
    ++ codes ") expires in "
    ++ show (round_seconds left)
    ++ codes ". Use the extend endpoint to renew."

abbrev card : (ℤ → Text) → IssuedToken → ℤ → MessageCard
card show t left = record {
  kind = codes "MessageCard";
  context = codes "https://schema.org/extensions";
  summary = codes "Token Expiring";
  title = codes "⚠" ++ 0xFE0F ∷ codes " JIT Token Expiring";
  text = holder show t left;
}

module _ {W : Type 0} (show : ℤ → Text) where
  -- LogNotifier
  unfoldable pub log_notifier : Console W → Notifier W
  log_notifier console = record {
    notify_expiring = λ t left w.
        let msg =
          codes "⚠"
          ++ 0xFE0F ∷ codes "  TOKEN EXPIRING: token "
          ++ t.id
          ++ codes " (user="
          ++ t.user
          ++ codes ", resource="
          ++ t.resource
          ++ codes ") expires in "
          ++ show (round_seconds left)
          ++ codes " — run extend to renew" in
        (none, console.print_line msg (console.log_line msg w));
  }

  module _ (net : Network W) (timed_client : HttpClient W) where
    abbrev client_or_timed : Option (HttpClient W) → HttpClient W
    client_or_timed none = timed_client
    client_or_timed (some c) = c

    abbrev pub webhook_call : Webhook W → Text → HttpCall
    webhook_call hook body = record {
      method = codes "POST";
      url = hook.url;
      headers = (codes "Content-Type", codes "application/json") ∷ [];
      body = body;
    }

    unfoldable pub read_delivery : Text → Result HttpReply → Option Text
    read_delivery service (err e) = some e
    read_delivery service (ok reply) =
        if leb 300 reply.status
        then some (service ++ codes " webhook returned " ++ decimal_ℕ reply.status)
        else none

    -- What both webhooks do with their payload.
    unfoldable pub deliver : Text → Webhook W → Text → W → Option Text × W
    unfolding read_delivery
    deliver service hook body w =
        let call = webhook_call hook body in
        if is_empty hook.url then (none, w) else elim (net.bad_request call.method call.url) [
          | some e ↦ (some e, w)
          | none ↦
              let (answer, w') = (client_or_timed hook.client).send call w in
              (read_delivery service answer, w')
        ]

    -- SlackNotifier
    unfoldable pub slack_notifier : (Text → Text) → Webhook W → Notifier W
    unfolding deliver
    slack_notifier marshal_text hook = record {
      notify_expiring = λ t left w.
          deliver (codes "slack") hook
            (marshal_text (codes ":warning: *Token Expiring*\n" ++ holder show t left)) w;
    }

    -- TeamsNotifier
    unfoldable pub teams_notifier : (MessageCard → Text) → Webhook W → Notifier W
    unfolding deliver
    teams_notifier marshal_card hook = record {
      notify_expiring =
          λ t left w. deliver (codes "teams") hook (marshal_card (card show t left)) w;
    }
