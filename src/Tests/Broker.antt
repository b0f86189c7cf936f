-- ===== src/Tests/Broker.antt =====
-- The broker with its default configuration, whose PagerDuty vouches for ann: one request.
use jit_access_broker.Prelude.{false, none, [], pos, codes}
use jit_access_broker.Providers.{ok, err}
use jit_access_broker.Persistence.{not_exist}
use jit_access_broker.Config.{default}
use jit_access_broker.Api.{HttpRequest}
use jit_access_broker.Store.{Store}
use jit_access_broker.Router.{Libraries, serve}
use jit_access_broker.System.Changes.{Change, serve-Change}
use jit_access_broker.Main.{Outside, main_server, main_slack, main_store}
use jit_access_broker.Tests.World.{World, background}
use jit_access_broker.Tests.Gates.{quoted, decoder}
use jit_access_broker.Tests.Clients.{same_case, network, machine, assigned, in_progress, vault_json}

abbrev pub libraries : Libraries
libraries = record {
  json = decoder;
  quote = quoted;
  path_escape = quoted;
  rfc3339 = λ t. [];
  parse_form = λ r. err (codes "no form");
  ed25519 = λ key message signature. false;
}

abbrev outside : Outside World
outside = record {
  lib = libraries;
  net = network;
  machine = machine;
  fold = same_case;
  base64 = quoted;
  decode_incident = assigned;
  decode_issue = in_progress;
  vault_json = vault_json;
  revoked_tokens = record { read = λ w. []; write = λ l w. w };
  audit_writer = record {
    print_line = λ line w. w;
    now = λ w. (7, w);
    rfc3339_nano = λ t. [];
    marshal_event = λ e time. ok [];
    quote = quoted;
  };
  sleep = λ d w. w;
  jitter_parts = λ d w. ((pos 0, pos 0), w);
  to_duration = λ n. pos n;
  fs = record {
    write_file = λ path text w. (none, w);
    rename = λ old new w. (none, w);
    read_file = λ path w. not_exist;
  };
  codec = record { marshal = λ l. ok []; unmarshal = λ t. ok [] };
  background = background;
  console = record { log_line = λ t w. w; print_line = λ t w. w };
  timed_client = network.default_client;
  show_duration = λ d. [];
  show_errors = λ l. [];
  marshal_text = quoted;
  marshal_card = λ c. [];
}

abbrev pub asked : HttpRequest
asked = record {
  method = codes "POST";
  path = codes "/api/v1/access/request";
  body = codes "pagerduty";
}

abbrev fresh_store : Store World
fresh_store = (main_store outside default 3 tt).0

serve-Change_example :
    Change libraries
      (main_server outside default)
      (main_slack outside default)
      fresh_store
      asked
      tt
      (serve libraries
        (main_server outside default)
        (main_slack outside default)
        fresh_store
        background
        asked
        5
        6
        tt).1
serve-Change_example =
    serve-Change libraries (main_server outside default) (main_slack outside default) fresh_store
      background asked 5 6 tt
