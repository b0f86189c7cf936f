-- ===== src/Tests/Reboots.antt =====
-- A broker with a state file on a disk in memory: a request, a shutdown and a start.
use jit_access_broker.Prelude.{
  ◌≤◌, inr, some, Text, ℤ, ◌≡◌, refl, none, [], pos, codes, trim_space, trim_left, str_eq,
  equal_fold, hex_encode, to_lower, starts_with,
}
use jit_access_broker.Prelude.Dict.{lookup, insert}
use jit_access_broker.Providers.{Result, ok}
use jit_access_broker.Persistence.{
  load_active, load_all, save_all, write_then_rename, missed_expirations, to_record, to_token,
}
use jit_access_broker.Config
use jit_access_broker.Config.{
  Config, Raw, decoded, default, zero_config, duration_of, unmarshal_yaml, load,
}
use jit_access_broker.Store.{
  Store, get, find_live, new, add, set_session_limits, set_retry_revoker, set_audit_logger,
  set_notifier,
}
use jit_access_broker.Store.Recovery.{
  persist_all, set_persistence, recover_missed_expirations, replay, readd, revoke_missed,
}
use jit_access_broker.Store.Recovery.Restart.{surviving}
use jit_access_broker.Auth.{validate, consult, normal_type}
use jit_access_broker.Api.Access.{request_access, decide, grant}
use jit_access_broker.Providers.PagerDuty.{
  pagerduty_validate, read_incident, judge_incident, is_assigned,
}
use jit_access_broker.Providers.Stubs.{demo_issue}
use jit_access_broker.Router.{serve, route, dispatch}
use jit_access_broker.System.Runs.{serves}
use jit_access_broker.Main.Life.{Life, born, lives, restarts, requests}
use jit_access_broker.Main.Guarantees.{IsWarranted, main_store-Life}
use jit_access_broker.Models.{IssuedToken, zero_token, add_time, max_ttl, max_session_duration}
use jit_access_broker.Main.{
  Outside, main_config, main_issuer, main_engine, main_server, main_slack, main_store,
  recovered_store, wired_store,
}
use jit_access_broker.Main.Restart.{get-main_store_restarted}
use jit_access_broker.Tests.Gates.{quoted}
use jit_access_broker.Tests.Clients.{same_case, assigned, in_progress, vault_json, repeated}
use jit_access_broker.Tests.Disk.{Disk, disk, disk-IsFileSystem, plain, plain-IsCodec}
use jit_access_broker.Tests.Broker.{libraries, asked}

abbrev machine_room : Outside Disk
machine_room = record {
  lib = libraries;
  net = record {
    bad_request = λ method url. none;
    default_client = record { send = λ call w. (ok (record { status = 200; body = [] }), w) };
  };
  machine = record { now = λ w. (7, w); rand_read = λ n w. (repeated n 171, w) };
  fold = same_case;
  base64 = quoted;
  decode_incident = assigned;
  decode_issue = in_progress;
  vault_json = vault_json;
  revoked_tokens = record { read = λ w. []; write = λ l w. w };
  audit_writer = record {
    print_line = λ line w. w;
    now = λ w. (7, w);
    rfc3339_nano = λ t. [];
    marshal_event = λ e time. ok [];
    quote = quoted;
  };
  sleep = λ d w. w;
  jitter_parts = λ d w. ((pos 0, pos 0), w);
  to_duration = λ n. pos n;
  fs = disk;
  codec = plain;
  background = record { ctx_err = λ w. none };
  console = record { log_line = λ t w. w; print_line = λ t w. w };
  timed_client = record { send = λ call w. (ok (record { status = 200; body = [] }), w) };
  show_duration = λ d. [];
  show_errors = λ l. [];
  marshal_text = quoted;
  marshal_card = λ c. [];
}

-- A file that Load accepts, with a state file and no Vault token.
abbrev an_hour : Text → Result ℤ
an_hour text = ok max_ttl

abbrev written : Raw
unfolding default
written = record {
  server_addr = codes ":8080";
  server_shutdown_timeout = [];
  providers = default.providers;
  vault_addr = codes "https://vault";
  vault_token = [];
  vault_token_ttl = codes "1h";
  vault_max_tokens_per_user = pos 3;
  aws = zero_config.aws;
  token_ttl = codes "1h";
  max_session_duration = [];
  warning_before_expiry = [];
  notifications = zero_config.notifications;
  persistence = record { path = codes "state.json" };
  break_glass = zero_config.break_glass;
  slack = zero_config.slack;
}

abbrev kept : Config
unfolding default
kept = record zero_config {
  server = record { addr = codes ":8080"; shutdown_timeout = pos 0 };
  providers = default.providers;
  vault = record {
    addr = codes "https://vault";
    token = [];
    token_ttl = max_ttl;
    max_tokens_per_user = pos 3;
  };
  token_ttl = max_ttl;
  max_session_duration = default.max_session_duration;
  warning_before_expiry = default.warning_before_expiry;
  persistence = record { path = codes "state.json" };
}

kept-configured :
    main_config (λ d. codes "1h0m0s") an_hour (codes "c.yaml") (decoded written) ≡ ok kept
unfolding main_config load unmarshal_yaml duration_of Config.validate default
kept-configured = refl

abbrev first_boot : Store Disk
first_boot = (main_store machine_room kept 3 []).0

abbrev served : Store Disk
served =
    (serve libraries (main_server machine_room kept) (main_slack machine_room kept) first_boot
      machine_room.background asked 5 6 []).1

abbrev one_request : Life machine_room kept served
unfolding main_store recovered_store wired_store set_notifier set_audit_logger set_retry_revoker
    set_session_limits new default lookup set_persistence recover_missed_expirations replay readd
    revoke_missed load_active load_all missed_expirations
one_request =
    lives (born 3 [] (inr refl)) (serves machine_room.background asked 5 6 [] (λ t e. refl))

abbrev switched_off : Disk
switched_off = (persist_all served []).1

get-main_store_restarted_example :
    get (main_store machine_room kept 100 switched_off).0 (codes "tok_abababababababab")
    ≡ surviving 100 (get served (codes "tok_abababababababab"))
unfolding persist_all save_all write_then_rename find_live serve route dispatch request_access
    decide grant validate consult normal_type main_server main_engine main_issuer main_store
    recovered_store wired_store set_notifier set_audit_logger set_retry_revoker set_session_limits
    new default lookup insert add str_eq to_lower trim_space trim_left pagerduty_validate
    read_incident judge_incident is_assigned demo_issue hex_encode starts_with equal_fold
    set_persistence recover_missed_expirations replay readd revoke_missed load_active load_all
    missed_expirations
get-main_store_restarted_example =
    get-main_store_restarted machine_room (λ d. codes "1h0m0s") an_hour (codes "c.yaml")
      (decoded written) kept served 100 [] switched_off switched_off (codes "tok_abababababababab")
      kept-configured refl disk-IsFileSystem plain-IsCodec one_request refl refl

-- The token as the second start has it.
abbrev given : IssuedToken
given = record zero_token {
  id = codes "tok_abababababababab";
  user = codes "ann";
  resource = codes "db";
  token = codes "demo-ann-abababababababab";
  issued_at = 7;
  expires_at = 3600000000007;
  provider = codes "demo";
  original_issued_at = 7;
  justification_type = codes "pagerduty";
  justification_ref = codes "P1";
}

abbrev second_life : Life machine_room kept (main_store machine_room kept 100 switched_off).0
unfolding persist_all save_all write_then_rename find_live serve route dispatch request_access
    decide grant validate consult normal_type main_server main_engine main_issuer main_store
    recovered_store wired_store set_notifier set_audit_logger set_retry_revoker set_session_limits
    new default lookup insert add str_eq to_lower trim_space trim_left pagerduty_validate
    read_incident judge_incident is_assigned demo_issue hex_encode starts_with equal_fold
    set_persistence recover_missed_expirations replay readd revoke_missed load_active load_all
    missed_expirations
second_life = restarts 100 [] switched_off switched_off one_request refl refl

given-live :
    get (main_store machine_room kept 100 switched_off).0 (codes "tok_abababababababab")
    ≡ some given
unfolding get persist_all save_all write_then_rename find_live serve route dispatch request_access
    decide grant validate consult normal_type main_server main_engine main_issuer main_store
    recovered_store wired_store set_notifier set_audit_logger set_retry_revoker set_session_limits
    new default lookup insert add str_eq to_lower trim_space trim_left pagerduty_validate
    read_incident judge_incident is_assigned demo_issue hex_encode starts_with equal_fold
    set_persistence recover_missed_expirations replay readd revoke_missed load_active load_all
    missed_expirations to_record to_token
given-live = refl

main_store-Life_example :
    (3600000000007 ≤ add_time 7 max_session_duration)
    × IsWarranted machine_room kept (requests machine_room kept second_life) given
main_store-Life_example =
    main_store-Life machine_room (λ d. codes "1h0m0s") an_hour (codes "c.yaml") (decoded written)
      kept (main_store machine_room kept 100 switched_off).0 (codes "tok_abababababababab") given
      kept-configured disk-IsFileSystem plain-IsCodec second_life given-live
