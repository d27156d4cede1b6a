-- ===== src/Cmd/Compose/Refusal.antt =====
-- cmd/decision-gateway/main.go: a router that is refused to the routes of the flags.
use decision_gateway.Prelude.{◌≡◌, refl, subst, ◌≢◌, List, [], ◌∷◌, All, All-get_elem?, Text, err}
use decision_gateway.Gateway.{
  Route, RouterError, new_router, no_routes, empty_prefix, nil_backend, duplicate_prefix,
}
use decision_gateway.Gateway.Validation.{IsServable, Explains}
use decision_gateway.Gateway.Construction.{Promises, new_router-Promises}
use decision_gateway.World.{Env}
use decision_gateway.Cmd.Flags.Parsing.{AllName, rooted_filled}
use decision_gateway.Cmd.Compose.{Options}

-- Two routes named by the flags have one prefix.
abbrev pub Repeats : Env → Options → RouterError → Type 0
Repeats env o (duplicate_prefix p i j) =
    (rs : List Route) × AllName env o.route rs × Explains rs (duplicate_prefix p i j)
Repeats env o _ = ⊥

-- The routes that flags name can be served.
pub AllName-IsServable :
    (env : Env) (specs : List Text) (rs : List Route) → AllName env specs rs → All IsServable rs
AllName-IsServable env [] [] n = tt
AllName-IsServable env [] (r ∷ rs) n = elim n [ ]
AllName-IsServable env (spec ∷ specs) [] n = elim n [ ]
AllName-IsServable env (spec ∷ specs) (r ∷ rs) (n, ns) =
    ((rooted_filled r.prefix n.rooted, (n.url, n.kept)), AllName-IsServable env specs rs ns)

-- With routes that can be served, a router can only be refused for a repeated prefix.
pub router_error-Repeats :
    (env : Env) (o : Options) (rs : List Route) (e : RouterError)
    → o.route ≢ []
    → AllName env o.route rs
    → new_router rs ≡ err e
    → Repeats env o e
router_error-Repeats env o rs e filled n failed =
    go e (subst (Promises rs) failed (new_router-Promises rs))
  where
    go : (e : RouterError) → Explains rs e → Repeats env o e
    go no_routes x = absurd (nothing_named (o.route) rs n filled x)
      where
        nothing_named :
            (specs : List Text) (rs : List Route) → AllName env specs rs → specs ≢ [] → ¬ (rs ≡ [])
        nothing_named [] rs n filled x = filled refl
        nothing_named (spec ∷ specs) [] n filled x = n
        nothing_named (spec ∷ specs) (r ∷ rs) n filled x = cc
    go (empty_prefix i) (r, at, empty, _) =
        absurd ((All-get_elem? IsServable rs i (AllName-IsServable env o.route rs n) at).0 empty)
    go (nil_backend i) (r, at, _, missing, _) =
        let (_, (u, present)) =
          All-get_elem? IsServable rs i (AllName-IsServable env o.route rs n) at in
        cc
    go (duplicate_prefix p i j) x = (rs, n, x)
