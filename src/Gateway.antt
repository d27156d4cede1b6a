-- ===== src/Gateway.antt =====
-- internal/gateway/router.go: routes, and the router that selects one by longest prefix.
pub mod Validation
pub mod Sorting
pub mod Construction
pub mod Matching
pub mod Order
pub mod Extensional
pub mod Rebuilding
use decision_gateway.Prelude.{
  ℕ, ◌+◌, Option, none, some, List, [], ◌∷◌, leb, if◌then◌else◌, length, Text, text_eq, is_blank,
  has_prefix, Outcome, ok, err,
}
use decision_gateway.Net.Url.{Url}

-- `none` is the nil pointer.
pub record Route : Type 0 where
  pub prefix : Text
  pub backend : Option Url

pub record Router : Type 0 where
  pub routes : List Route

pub data RouterError : Type 0 where
  no_routes : RouterError
  empty_prefix : ℕ → RouterError
  nil_backend : ℕ → RouterError
  -- the prefix, the index that held it first, the index that repeats it
  duplicate_prefix : Text → ℕ → ℕ → RouterError

-- `prev, ok := seen[p]`
pub find_seen : Text → List (Text × ℕ) → Option ℕ
find_seen p [] = none
find_seen p ((q, i) ∷ seen) = if text_eq q p then some i else find_seen p seen

-- The checks on one route, in the source's order; the map `seen` is a list, latest entry first.
pub check_route : List (Text × ℕ) → ℕ → Route → Option RouterError
check_route seen i r = if is_blank r.prefix then some (empty_prefix i) else elim r.backend [
  | none ↦ some (nil_backend i)
  | some _ ↦ elim (find_seen r.prefix seen) [
    | some prev ↦ some (duplicate_prefix r.prefix prev i)
    | none ↦ none
  ]
]

-- The loop over the routes; `none` when it runs to the end.
pub validate : List (Text × ℕ) → ℕ → List Route → Option RouterError
validate seen i [] = none
validate seen i (r ∷ rs) = elim (check_route seen i r) [
  | some e ↦ some e
  | none ↦ validate ((r.prefix, i) ∷ seen) (i + 1) rs
]

-- `sort.SliceStable` by length, descending: a route stands before all later ones that are not
-- longer, so routes of equal length keep their order.
pub insert_route : Route → List Route → List Route
insert_route r [] = r ∷ []
insert_route r (s ∷ rs) =
    if leb (length s.prefix) (length r.prefix) then r ∷ s ∷ rs else s ∷ insert_route r rs

pub sort_routes : List Route → List Route
sort_routes [] = []
sort_routes (r ∷ rs) = insert_route r (sort_routes rs)

unfoldable pub new_router : List Route → Outcome RouterError Router
unfolding validate check_route find_seen sort_routes insert_route
new_router [] = err no_routes
new_router (r ∷ rs) = elim (validate [] 0 (r ∷ rs)) [
  | some e ↦ err e
  | none ↦ ok (record { routes = sort_routes (r ∷ rs) })
]

-- The loop of `Match`; `none` is `(Route{}, false)`.
pub match_first : Text → List Route → Option Route
match_first path [] = none
match_first path (r ∷ rs) = if has_prefix path r.prefix then some r else match_first path rs

unfoldable pub match : Router → Text → Option Route
unfolding match_first
match router path = match_first path router.routes

-- A copy of the slice.
unfoldable pub routes_of : Router → List Route
routes_of router = router.routes
