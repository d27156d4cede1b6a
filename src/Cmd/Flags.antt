-- ===== src/Cmd/Flags.antt =====
-- cmd/decision-gateway/routes.go: the repeated --route flag.
pub mod Arrow
pub mod Parsing
use decision_gateway.Prelude.{
  ℕ, suc, ◌+◌, Option, none, some, List, [], ◌∷◌, ◌++◌, if◌then◌else◌, take, drop, Text, text,
  is_blank, has_prefix, Outcome, ok, err,
}
use decision_gateway.Prelude.Results.{◌>>=◌}
use decision_gateway.Net.Url.{Url}
use decision_gateway.Gateway.{Route}
use decision_gateway.World.{Env}

-- Each error carries the spec, and where the source prints it the backend.
pub data FlagError : Type 0 where
  route_required : FlagError
  missing_arrow : Text → FlagError
  prefix_is_empty : Text → FlagError
  prefix_without_slash : Text → FlagError
  invalid_url : Text → Text → FlagError
  missing_scheme : Text → Text → FlagError
  missing_host : Text → Text → FlagError

abbrev pub RouteFlagList : Type 0
RouteFlagList = List Text

-- The flag's String: the specs joined by commas.
unfoldable pub flag_string : RouteFlagList → Text
flag_string [] = []
flag_string (v ∷ []) = v
flag_string (v ∷ u ∷ vs) = v ++ b',' ∷ flag_string (u ∷ vs)

-- The flag's Set, which cannot fail.
unfoldable pub flag_set : RouteFlagList → Text → RouteFlagList
flag_set r v = r ++ v ∷ []

-- `strings.Index(s, sub)`; `none` is -1
pub index_of : Text → Text → Option ℕ
index_of sub [] = if has_prefix [] sub then some 0 else none
index_of sub (c ∷ s) =
    if has_prefix (c ∷ s) sub
    then some 0
    else elim (index_of sub s) [ none ↦ none | some i ↦ some (suc i) ]

abbrev pub arrow : Text
arrow = text "=>"

-- `none` is `("", "", false)`
unfoldable pub split_arrow : Text → Option (Text × Text)
unfolding index_of has_prefix
split_arrow spec = elim (index_of arrow spec) [
  | none ↦ none
  | some i ↦ some (take i spec, drop (i + 2) spec)
]

-- One round of the loop, in the order of the source's checks.
pub check_backend : Text → Text → Text → Option Url → Outcome FlagError Route
check_backend spec prefix backend none = err (invalid_url spec backend)
check_backend spec prefix backend (some u) =
    if is_blank u.scheme
    then err (missing_scheme spec backend)
    else if is_blank u.host
    then err (missing_host spec backend)
    else ok (record { prefix = prefix; backend = some u })

pub parse_spec : Env → Text → Outcome FlagError Route
parse_spec env spec = elim (split_arrow spec) [
  | none ↦ err (missing_arrow spec)
  | some (prefix, backend) ↦
      if is_blank prefix
      then err (prefix_is_empty spec)
      else if has_prefix prefix (text "/")
      then check_backend spec prefix backend (env.parse_url backend)
      else err (prefix_without_slash spec)
]

pub parse_specs : Env → List Text → Outcome FlagError (List Route)
parse_specs env [] = ok []
parse_specs env (spec ∷ specs) = do r ← parse_spec env spec; rs ← parse_specs env specs; ok (r ∷ rs)

unfoldable pub parse_route_flags : Env → RouteFlagList → Outcome FlagError (List Route)
unfolding parse_specs parse_spec check_backend
parse_route_flags env [] = err route_required
parse_route_flags env (spec ∷ specs) = parse_specs env (spec ∷ specs)
