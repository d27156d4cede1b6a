-- ===== src/Handlers/Relisting.antt =====
-- internal/httpapi/routes_admin.go: a GET of the table after a POST, and what it lists posted again.
use decision_gateway.Prelude.{
  ◌≡◌, true, false, ◌||◌, some, List, ◌∷◌, Permᴰ, All, Text, text, is_blank, ok,
}
use decision_gateway.Net.Url.{Url}
use decision_gateway.Net.Headers.{set}
use decision_gateway.Net.Http.{Request}
use decision_gateway.Gateway.{Route}
use decision_gateway.Writer.{Writer, write, edit_header}
use decision_gateway.World.{World, Env, RouteSpec}
use decision_gateway.Proxy.Build.{BuildConfig}
use decision_gateway.Proxy.Build
use decision_gateway.Proxy.Holder.{current_routes}
use decision_gateway.Api.Routes.{spec_routes, post_table, routes_admin}
use decision_gateway.Api.Routes.Reading.{listing, IsUtf8Spec}
use decision_gateway.Api.Utf8.{is_utf8}
use decision_gateway.Api.Json.Reading.{read_listing}

-- What is documented of json.Decoder: it decodes what the encoder writes for specs of UTF-8 to these
-- specs, and the strings that it decodes are UTF-8, since it puts U+FFFD for other bytes.
pub record IsDecoder (env : Env) : Type 0 where
  pub decodes :
      (spec : RouteSpec) (specs : List RouteSpec)
      → All IsUtf8Spec (spec ∷ specs)
      → env.decode_routes (listing (spec ∷ specs)) ≡ some (spec ∷ specs)
  pub are_utf8 :
      (t : Text) (specs : List RouteSpec) → env.decode_routes t ≡ some specs → All IsUtf8Spec specs

-- What is documented of net/url: a URL that was parsed is parsed again from its own text, which is
-- UTF-8 if the text it came from was, since String escapes other bytes.
pub record IsUrlCodec (env : Env) : Type 0 where
  pub parses :
      (t : Text) (u : Url) → env.parse_url t ≡ some u → env.parse_url (env.url_string u) ≡ some u
  pub keeps_utf8 :
      (t : Text) (u : Url)
      → env.parse_url t ≡ some u
      → is_utf8 t ≡ true
      → is_utf8 (env.url_string u) ≡ true

-- A route whose prefix is UTF-8 and whose backend was parsed from UTF-8, with a scheme and a host.
abbrev IsParsed : Env → Route → Type 0
IsParsed env r =
    (u : Url) × (t : Text) × (r.backend ≡ some u)
    × (is_utf8 r.prefix ≡ true)
    × (is_utf8 t ≡ true)
    × (env.parse_url t ≡ some u)
    × ((is_blank u.scheme || is_blank u.host) ≡ false)

-- The table in place, as a GET lists it and as the listing, posted, puts it in place again.
pub record IsRelisted (env : Env) (cfg : BuildConfig) (r : Request) (w : Writer) (rs : List Route)
    (s : World) : Type 0 where
  pub specs : List RouteSpec
  pub routes : List Route
  pub after : World
  pub current : current_routes s ≡ some routes
  pub same : Permᴰ routes rs
  pub lists :
      routes_admin env cfg true r w s
      ≡ some (
        write (listing specs) (edit_header (set (text "Content-Type") (text "application/json")) w),
        s,
      )
  pub reads : read_listing (listing specs) ≡ some specs
  pub means : spec_routes env specs ≡ ok routes
  pub again : post_table env cfg (listing specs) s ≡ ok after
  pub still : current_routes after ≡ some routes
