-- ===== src/Net/Http.antt =====
-- net/http: requests, and the server's own response. The response keeps the first status that is
-- written, with the header as it stood then; a body with no status before it has status 200.
use decision_gateway.Prelude.{
  ℕ, Bool, true, false, Option, none, some, [], ◌++◌, if◌then◌else◌, Text,
}
use decision_gateway.Net.Url.{Url}
use decision_gateway.Net.Headers.{Headers}

-- A trace's and a span's ID, as OpenTelemetry prints them.
pub record SpanContext : Type 0 where
  pub trace_id : Text
  pub span_id : Text
  pub is_valid : Bool

-- The two values that the gateway keeps in a request's context.
pub record Context : Type 0 where
  pub correlation_id : Option Text
  pub span : Option SpanContext

pub record Request : Type 0 where
  pub method : Text
  pub url : Url
  pub host : Text
  pub header : Headers
  pub body : Text
  -- the IP of RemoteAddr, where that parses
  pub client_ip : Option Text
  pub context : Context

-- What a round trip to a backend returns.
pub record Reply : Type 0 where
  pub status : ℕ
  -- such as "503 Service Unavailable"
  pub status_line : Text
  pub header : Headers
  pub body : Text

pub record Response : Type 0 where
  pub header : Headers
  pub status : Option ℕ
  -- the header that went out with the status
  pub sent_header : Headers
  pub body : Text

abbrev pub fresh_response : Response
fresh_response = record { header = []; status = none; sent_header = []; body = [] }

abbrev pub status_ok : ℕ
status_ok = 200

abbrev pub or_ok : Option ℕ → ℕ
or_ok none = status_ok
or_ok (some code) = code

abbrev pub is_set : Option ℕ → Bool
is_set none = false
is_set (some _) = true

unfoldable pub response_write_header : ℕ → Response → Response
response_write_header code r =
    if is_set r.status then r else record r { status = some code; sent_header = r.header }

unfoldable pub response_write : Text → Response → Response
unfolding response_write_header
response_write b r = let r' = response_write_header status_ok r in record r' { body = r'.body ++ b }
