-- ===== src/Cmd/Mux.antt =====
-- net/http: the ServeMux of Go 1.18, with the patterns that the gateway registers: four exact paths
-- and "/". A path that is not clean is redirected, unless the method is CONNECT. The redirection is
-- a parameter. Not modelled: the request target "*", and the mux's answer where no pattern fits.
pub mod Select
use decision_gateway.Prelude.{
  Bool, false, ◌||◌, Option, none, some, List, [], ◌∷◌, ◌++◌, ◌==◌, if◌then◌else◌, Text, text,
  text_eq, is_blank, has_prefix,
}
use mathlib.Core.List.{reverse, tail}
use decision_gateway.Net.Url.{Url}
use decision_gateway.World.{Handler}

-- `strings.Split(s, "/")`
split_slashes : Text → Text → List Text
split_slashes cur [] = cur ∷ []
split_slashes cur (c ∷ s) =
    let closed = cur ∷ split_slashes [] s in
    let longer = split_slashes (cur ++ c ∷ []) s in if c == b'/' then closed else longer

-- The elements of a rooted path after `path.Clean`; the stack has the last one at its head.
clean_from : List Text → List Text → List Text
clean_from stack [] = reverse stack
clean_from stack (part ∷ parts) =
    clean_from
      (if is_blank part || text_eq part (text ".")
        then stack
        else if text_eq part (text "..")
        then tail stack
        else part ∷ stack)
      parts

join_parts : List Text → Text
join_parts [] = []
join_parts (part ∷ parts) = b'/' ∷ part ++ join_parts parts

rooted : Text → Text
rooted p = if has_prefix p (text "/") then p else b'/' ∷ p

ends_with_slash : Text → Bool
ends_with_slash [] = false
ends_with_slash (c ∷ []) = c == b'/'
ends_with_slash (c ∷ d ∷ s) = ends_with_slash (d ∷ s)

unfoldable pub clean_path : Text → Text
unfolding split_slashes clean_from join_parts rooted ends_with_slash
clean_path p =
    let np = join_parts (clean_from [] (split_slashes [] (rooted p))) in
    if is_blank np then text "/" else if ends_with_slash p then np ++ text "/" else np

pub record Patterns : Type 0 where
  pub healthz : Handler
  pub readyz : Handler
  pub metrics : Option Handler
  pub routes : Option Handler
  pub rest : Handler

abbrev pub or_rest : Option Handler → Handler → Handler
or_rest none rest = rest
or_rest (some h) rest = h

unfoldable pub select : Patterns → Text → Handler
select p path =
    if text_eq path (text "/healthz")
    then p.healthz
    else if text_eq path (text "/readyz")
    then p.readyz
    else if text_eq path (text "/metrics")
    then or_rest p.metrics p.rest
    else if text_eq path (text "/admin/routes")
    then or_rest p.routes p.rest
    else p.rest

unfoldable pub serve_mux : (Url → Handler) → Patterns → Handler
unfolding select
serve_mux redirect p r w s =
    if text_eq r.method (text "CONNECT") || text_eq (clean_path r.url.path) r.url.path
    then select p r.url.path r w s
    else redirect (record (r.url) { path = clean_path r.url.path }) r w s
