-- ===== src/Models.antt =====
-- models/models.go: the issued token, the requests and responses, and the hard limits.
-- A time.Time is the number of nanoseconds since Go's zero Time; earlier instants do not occur. A
-- time.Duration is a signed number of nanoseconds.
use jit_access_broker.Prelude.{
  ℕ, suc, ◌+◌, ◌-◌, ◌/◌, sub_ℕ, min, Bool, false, leb, ◌==◌, if◌then◌else◌, ℤ, pos, negsuc, [],
  Text,
}

abbrev pub Instant : Type 0
Instant = ℕ

abbrev pub second : ℕ
second = 1000000000

abbrev pub minute : ℕ
minute = 60000000000

-- MaxTTL, MaxSessionDuration and WarningBeforeExpiry.
abbrev pub max_ttl : ℤ
max_ttl = pos 3600000000000

abbrev pub max_session_duration : ℤ
max_session_duration = pos 14400000000000

abbrev pub warning_before_expiry : ℤ
warning_before_expiry = pos 900000000000

-- t.Add(d)
abbrev pub add_time : Instant → ℤ → Instant
add_time t (pos d) = t + d
add_time t (negsuc d) = t - (d + 1)

-- t.Sub(u), which saturates at the ends of int64.
abbrev pub sub_time : Instant → Instant → ℤ
sub_time t u =
    if leb u t
    then pos (min (t - u) 9223372036854775807)
    else negsuc (min (u - t - 1) 9223372036854775807)

-- int(d.Seconds()): towards zero. The float64 is exact enough below 2 ^ 23 seconds.
abbrev pub whole_seconds : ℤ → ℤ
whole_seconds (pos n) = pos (n / second)
whole_seconds (negsuc n) = sub_ℕ 0 (suc n / second)

-- The zero Time.
abbrev pub is_zero_time : Instant → Bool
is_zero_time t = t == 0

pub record AccessRequest : Type 0 where
  pub user_identity : Text
  pub resource : Text
  pub justification_type : Text
  pub justification_ref : Text

pub record IssuedToken : Type 0 where
  pub id : Text
  pub user : Text
  pub resource : Text
  pub token : Text
  pub issued_at : Instant
  pub expires_at : Instant
  pub provider : Text
  pub revoked : Bool
  pub original_issued_at : Instant
  pub extension_count : ℕ
  pub notified_expiry : Bool
  pub justification_type : Text
  pub justification_ref : Text

-- The zero IssuedToken.
abbrev pub zero_token : IssuedToken
zero_token = record {
  id = [];
  user = [];
  resource = [];
  token = [];
  issued_at = 0;
  expires_at = 0;
  provider = [];
  revoked = false;
  original_issued_at = 0;
  extension_count = 0;
  notified_expiry = false;
  justification_type = [];
  justification_ref = [];
}

pub record ExtensionRequest : Type 0 where
  pub token_id : Text
  pub user_identity : Text
  pub justification_type : Text
  pub justification_ref : Text

-- SessionAge
unfoldable pub session_age : IssuedToken → Instant → ℤ
session_age t now = sub_time now t.original_issued_at

pub record AccessResponse : Type 0 where
  pub granted : Bool
  pub token : Text
  pub token_id : Text
  pub resource : Text
  pub issued_at : Instant
  pub expires_at : Instant
  pub ttl_seconds : ℤ
  pub max_session_at : Instant

pub record ErrorResponse : Type 0 where
  pub error : Text
  pub reason : Text
  pub status : ℕ

pub record ExtensionResponse : Type 0 where
  pub extended : Bool
  pub token_id : Text
  pub new_expires_at : Instant
  pub extensions_left : ℤ
  pub max_session_at : Instant
  pub reason : Text
