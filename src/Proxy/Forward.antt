-- ===== src/Proxy/Forward.antt =====
-- net/http/httputil: a ReverseProxy made by NewSingleHostReverseProxy, with a transport set. Not
-- modelled: escaped paths, trailers, and protocol upgrades, for which the proxy needs a writer
-- that can be hijacked.
use decision_gateway.Prelude.{
  ℕ, ◌≡◌, Bool, true, false, ◌||◌, Option, none, some, List, [], ◌∷◌, ◌++◌, ◌==◌, if◌then◌else◌,
  drop, Text, text, is_blank, has_prefix,
}
use decision_gateway.Net.Url.{Url}
use decision_gateway.Net.Headers.{Headers, set, del_all, has, values, copy_all, named_keys}
use decision_gateway.Net.Http.{Request, Reply}
use decision_gateway.Writer.{Writer, write_header, write, edit_header}
use decision_gateway.World.{Env, Handler, Trip, replied, failed, cut}
use decision_gateway.Proxy.Transport.{RoundTripper}
use decision_gateway.Proxy.Build.{ReverseProxy}
use decision_gateway.Otel.Instrumented.{round_trip}

ends_with_slash : Text → Bool
ends_with_slash [] = false
ends_with_slash (c ∷ []) = c == b'/'
ends_with_slash (c ∷ d ∷ s) = ends_with_slash (d ∷ s)

-- singleJoiningSlash
unfoldable pub join_path : Text → Text → Text
unfolding ends_with_slash
join_path a b =
    if ends_with_slash a
    then (if has_prefix b (text "/") then a ++ drop 1 b else a ++ b)
    else (if has_prefix b (text "/") then a ++ b else a ++ b'/' ∷ b)

join_query : Text → Text → Text
join_query a b = if is_blank a || is_blank b then a ++ b else a ++ b'&' ∷ b

-- The director; the Host of the request stays that of the client.
unfoldable pub direct : Url → Request → Request
unfolding join_query
direct target r = record r {
  url = record (r.url) {
    scheme = target.scheme;
    host = target.host;
    path = join_path target.path r.url.path;
    raw_query = join_query target.raw_query r.url.raw_query;
  };
  header =
      if has (text "User-Agent") r.header then r.header else set (text "User-Agent") [] r.header;
}

abbrev pub hop_headers : List Text
hop_headers =
    text "Connection"
    ∷ text "Proxy-Connection"
    ∷ text "Keep-Alive"
    ∷ text "Proxy-Authenticate"
    ∷ text "Proxy-Authorization"
    ∷ text "Te"
    ∷ text "Trailer"
    ∷ text "Transfer-Encoding"
    ∷ text "Upgrade"
    ∷ []

unfoldable pub strip_hops : Headers → Headers
strip_hops h = del_all hop_headers (del_all (named_keys (values (text "Connection") h)) h)

join_commas : List Text → Text → Text
join_commas [] ip = ip
join_commas (v ∷ vs) ip = v ++ text ", " ++ join_commas vs ip

unfoldable pub forward_for : Option Text → Headers → Headers
unfolding join_commas
forward_for none h = h
forward_for (some ip) h =
    set (text "X-Forwarded-For") (join_commas (values (text "X-Forwarded-For") h) ip) h

-- The request that the transport is given.
unfoldable pub outbound : Url → Request → Request
unfolding direct strip_hops forward_for
outbound target r =
    let r' = direct target r in
    record r' { header = forward_for r'.client_ip (strip_hops r'.header) }

unfoldable pub copy_reply : Reply → Writer → Writer
unfolding strip_hops
copy_reply reply w =
    write reply.body
      (write_header reply.status (edit_header (λ h. copy_all h (strip_hops reply.header)) w))

-- The answer to the client: the backend's, or what of it could be copied, or 502 when the round trip failed.
unfoldable pub relay : Trip → Writer → Writer
unfolding copy_reply
relay (failed e) w = write_header 502 w
relay (cut reply) w = copy_reply reply w
relay (replied reply) w = copy_reply reply w

-- Whether the copy of the body ends early, for which the proxy panics with http.ErrAbortHandler.
unfoldable pub is_cut : Trip → Bool
is_cut (replied reply) = false
is_cut (failed e) = false
is_cut (cut reply) = true

-- Each reply can be copied in full.
abbrev pub AreWhole : Env → Type 0
AreWhole env = (n : ℕ) (rt : RoundTripper) (q : Request) → is_cut (env.network n rt q) ≡ false

unfoldable pub forward : Env → ReverseProxy → Handler
forward env rp r w s =
    let (trip, s') = round_trip env rp.transport (outbound rp.target r) s in
    if is_cut trip then none else some (relay trip w, s')
