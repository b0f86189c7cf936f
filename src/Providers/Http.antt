-- ===== src/Providers/Http.antt =====
-- What the provider clients use of net/http, encoding/json, the clock and crypto/rand. A call is its
-- method, its URL, the headers that the client sets and its body.
use jit_access_broker.Prelude.{ℕ, Option, none, some, List, Text}
use jit_access_broker.Models.{Instant}
use jit_access_broker.Providers.{Result}

pub record HttpCall : Type 0 where
  pub method : Text
  pub url : Text
  pub headers : List (Text × Text)
  pub body : Text

pub record HttpReply : Type 0 where
  pub status : ℕ
  pub body : Text

-- *http.Client: Do answers a reply or an error. The Context that it gets is part of the world.
pub record HttpClient (W : Type 0) : Type 0 where
  pub send : HttpCall → W → Result HttpReply × W

-- http.NewRequestWithContext's error for a method and a URL, and http.DefaultClient.
pub record Network (W : Type 0) : Type 0 where
  pub bad_request : Text → Text → Option Text
  pub default_client : HttpClient W

-- time.Now, and rand.Read into a slice of the given length; its error is dropped, and the slice is
-- then what it was.
pub record Machine (W : Type 0) : Type 0 where
  pub now : W → Instant × W
  pub rand_read : ℕ → W → List ℕ × W

module _ {W : Type 0} (net : Network W) where
  -- The client of a provider that has none is http.DefaultClient.
  abbrev pub client_or_default : Option (HttpClient W) → HttpClient W
  client_or_default none = net.default_client
  client_or_default (some c) = c
