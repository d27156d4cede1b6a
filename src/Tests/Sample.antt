-- ===== src/Tests/Sample.antt =====
-- Sample routes, requests and options, and a sample of the code outside the repository.
use decision_gateway.Prelude.{inr, true, false, Option, none, some, List, [], ◌∷◌, Text, text, pos}
use decision_gateway.Net.Url.{Url}
use decision_gateway.Net.Http.{Context, Request, Reply, SpanContext}
use decision_gateway.Gateway.{Route, Router}
use decision_gateway.World.{World, Env, replied, RouteSpec}
use decision_gateway.Cmd.Compose.{Options}
use decision_gateway.Otel.Bootstrap.{Sdk}

abbrev pub backend : Url
backend = record {
  scheme = text "http";
  opaque_part = [];
  user = [];
  host = text "b:1";
  path = [];
  raw_path = [];
  force_query = false;
  raw_query = [];
  fragment = [];
}

abbrev pub root_route : Route
root_route = record { prefix = text "/"; backend = some backend }

abbrev pub api_route : Route
api_route = record { prefix = text "/api"; backend = some backend }

abbrev pub routes : List Route
routes = root_route ∷ api_route ∷ []

abbrev pub router : Router
router = record { routes = api_route ∷ root_route ∷ [] }

abbrev pub swapped_routes : List Route
swapped_routes = api_route ∷ root_route ∷ []

abbrev pub block : Text
block = 0 ∷ 1 ∷ 2 ∷ 3 ∷ 4 ∷ 5 ∷ 255 ∷ 7 ∷ 255 ∷ 9 ∷ 10 ∷ 11 ∷ 12 ∷ 13 ∷ 14 ∷ 15 ∷ []

abbrev pub no_span : SpanContext
no_span = record { trace_id = text "t"; span_id = text "s"; is_valid = true }

abbrev pub reply : Reply
reply = record { status = 200; status_line = text "200 OK"; header = []; body = text "hi" }

abbrev pub spec : RouteSpec
spec = record { prefix = text "/"; backend = text "http://b:1" }

-- Every text but "" is the URL of the one backend, and every body but "" is the table of one route.
abbrev pub parse_url : Text → Option Url
parse_url [] = none
parse_url (c ∷ s) = some backend

abbrev pub decode_routes : Text → Option (List RouteSpec)
decode_routes [] = none
decode_routes (c ∷ s) = some (spec ∷ [])

abbrev pub env : Env
env = record {
  now = λ n. n;
  rand_read = λ n. some block;
  network = λ n rt r. replied reply;
  extract = λ h c. c;
  inject = λ c h. h;
  start_span = λ n c. no_span;
  parse_url = parse_url;
  url_string = λ u. u.host;
  decode_routes = decode_routes;
  prometheus = record { accepts_buckets = λ bs. true; registers = λ names. true };
  status_text = λ n. text "status";
}

abbrev pub sdk : Sdk
sdk = record { new_exporter = inr 1; new_resource = inr 2 }

abbrev pub world : World
world = record {
  ready = 0;
  current = none;
  boot_log = [];
  access_log = [];
  telemetry = record { provider = none; propagators = [] };
  counted = [];
  observed = [];
  spans = [];
  forwarded = [];
  clock_reads = 0;
  random_reads = 0;
  spans_started = 0;
}

abbrev pub context : Context
context = record { correlation_id = none; span = none }

abbrev pub get_request : Text → Request
get_request path = record {
  method = text "GET";
  url = record {
    scheme = [];
    opaque_part = [];
    user = [];
    host = [];
    path = path;
    raw_path = [];
    force_query = false;
    raw_query = [];
    fragment = [];
  };
  host = text "gateway";
  header = [];
  body = [];
  client_ip = some (text "10.0.0.1");
  context = context;
}

abbrev pub flags : List Text
flags = text "/=>http://b:1" ∷ text "/api=>http://b:1" ∷ []

abbrev pub options : Options
options = record {
  listen = text ":8090";
  backend_timeout = pos 5_000_000_000;
  upstream_max_idle_conns = pos 128;
  upstream_idle_timeout = pos 90_000_000_000;
  upstream_h2c = false;
  metrics_enabled = true;
  routes_admin = true;
  otel_enabled = true;
  route = flags;
}
