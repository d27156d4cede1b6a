-- ===== src/Handlers/Reload.antt =====
-- internal/httpapi/routes_admin.go: the state after a request to the admin endpoint.
use decision_gateway.Prelude.{
  ℕ, ◌≡◌, refl, sym, ap, ◌∙◌, subst, ◌⊎◌, inl, inr, true, false, Option, none, some, List, [], ◌∷◌,
  arith, if◌then◌else◌, Bool-cases, Option-cases, Text, text, text_eq, text_eq_iff, Outcome, ok,
  err, panic, Outcome-cases,
}
use decision_gateway.Net.Http.{Request}
use decision_gateway.Writer.{Writer}
use decision_gateway.World.{World, Env, RouteSpec}
use decision_gateway.Gateway.{Route, Router, new_router}
use decision_gateway.Proxy.Build.{BuildConfig}
use decision_gateway.Proxy.Build
use decision_gateway.Proxy.Build.Wiring.{IsWired}
use decision_gateway.Handlers.{Behaves, Marking, Unmarked}
use decision_gateway.Handlers.Proxying.{IsHeld}
use decision_gateway.Api.Routes.{
  post_table, post_routes, answer_post, routes_admin, with_state, write_routes, spec_routes,
}
use decision_gateway.Proxy.Holder.{current_routes}
use decision_gateway.Handlers.Table.{
  Posted, PostVerdict, post_table-PostVerdict, replaced, routes_admin-Behaves,
}

with_state-kept :
    (s s' : World) (out : Option Writer) (w' : Writer) → with_state s out ≡ some (w', s') → s' ≡ s
unfolding with_state
with_state-kept s s' none w' e = cc
with_state-kept s s' (some w) w' e = cc

-- The state after a POST.
post_routes-leaves :
    (env : Env) (cfg : BuildConfig) (r : Request) (w : Writer) (s : World) (w' : Writer)
    (s' : World)
    → post_routes env cfg r w s ≡ some (w', s')
    → (s' ≡ s) ⊎ Posted env r.body s s'
unfolding post_routes answer_post
post_routes-leaves env cfg r w s w' s' e = elim (Outcome-cases (post_table env cfg r.body s)) [
  | inl (s2, posted) ↦
      let listed : with_state s2 (write_routes env (current_routes s2) w) ≡ some (w', s') =
        ground arith in
      let same = with_state-kept s2 s' (write_routes env (current_routes s2) w) w' listed in
      inr (
        rw same (subst (PostVerdict env r.body s) posted (post_table-PostVerdict env cfg r.body s)))
  | inr (inl ((code, msg), refused)) ↦ inl (ground arith)
  | inr (inr fell) ↦ absurd (ground arith)
]

-- Whatever the request, the admin endpoint leaves the whole state as it was, or the request is a
-- POST whose body decodes to specs whose routes `new_router` accepts, and then only the current
-- handler has changed, to a wired one for that router.
pub routes_admin_swaps :
    (env : Env) (cfg : BuildConfig) (r : Request) (w : Writer) (s : World) (w' : Writer)
    (s' : World)
    → routes_admin env cfg true r w s ≡ some (w', s')
    → (s' ≡ s) ⊎ ((r.method ≡ text "POST") × Posted env r.body s s')
unfolding routes_admin
routes_admin_swaps env cfg r w s w' s' e = elim (Bool-cases (text_eq r.method (text "GET"))) [
  | inl is_get ↦
      inl (with_state-kept s s' (write_routes env (current_routes s) w) w' (ground arith))
  | inr other ↦ elim (Bool-cases (text_eq r.method (text "POST"))) [
    | inl is_post ↦ elim (post_routes-leaves env cfg r w s w' s' (ground arith)) [
      | inl same ↦ inl same
      | inr posted ↦ inr ((text_eq_iff r.method (text "POST")).0 is_post, posted)
    ]
    | inr neither ↦ inl (ground arith)
  ]
]

abbrev of_ok {ℓ κ} : {E : Type ℓ} {A : Type κ} → Outcome E A → Option A
of_ok (ok a) = some a
of_ok (err e) = none
of_ok panic = none

abbrev router_of_routes : Outcome Text (List Route) → Option Router
router_of_routes (ok rs) = of_ok (new_router rs)
router_of_routes (err e) = none
router_of_routes panic = none

abbrev router_of_specs : Env → Option (List RouteSpec) → Option Router
router_of_specs env none = none
router_of_specs env (some specs) = router_of_routes (spec_routes env specs)

-- The router of the table that a body holds, where it holds one that `new_router` accepts.
abbrev pub body_router : Env → Text → Option Router
body_router env body = router_of_specs env (env.decode_routes body)

-- The router that a request to the admin endpoint asks for.
abbrev pub posted_router : Env → Text → Text → Option Router
posted_router env method body = if text_eq method (text "POST") then body_router env body else none

-- The current handler before and after: a wired one for the router, or the same.
abbrev pub Installs : Option Router → Option Build.Handler → Option Build.Handler → Type 0
Installs none before after = after ≡ before
Installs (some router) before after =
    (h : Build.Handler) × (after ≡ some h) × (h.router ≡ router) × IsWired h

-- The marking of the admin endpoint.
abbrev pub Reloads : Env → Marking
Reloads env x current f =
    Unmarked x current f × Installs (posted_router env x.method x.body) current f.current

-- A table that is refused is one that `new_router` refuses, or none at all.
post_table-refuses :
    (env : Env) (cfg : BuildConfig) (body : Text) (s : World) (e : ℕ × Text)
    → post_table env cfg body s ≡ err e
    → body_router env body ≡ none
unfolding post_table spec_routes new_router
post_table-refuses env cfg body s e refused = elim (Option-cases (env.decode_routes body)) [
  | inl malformed ↦ rw malformed refl
  | inr ([], d) ↦ rw d refl
  | inr (spec ∷ specs, d) ↦ elim (Outcome-cases (spec_routes env (spec ∷ specs))) [
    | inl (rs, p) ↦ elim (Outcome-cases (new_router rs)) [
      | inl (router, built) ↦
          let (h, swap, _, _) = replaced cfg rs router s built in absurd (ground arith)
      | inr (inl (e', failed)) ↦ rw (d, p, failed) refl
      | inr (inr fell) ↦ rw (d, p, fell) refl
    ]
    | inr (inl (backend, failed)) ↦ rw (d, failed) refl
    | inr (inr fell) ↦ rw (d, fell) refl
  ]
]

Posted-Installs :
    (env : Env) (body : Text) (s s' : World)
    → Posted env body s s'
    → Installs (body_router env body) s.current s'.current
Posted-Installs env body s s' p =
    rw (p.decoded, p.parsed, p.accepted)
      (p.h, ap (λ (x : World). x.current) p.swapped, p.routed, p.wired)

post_routes-Installs :
    (env : Env) (cfg : BuildConfig) (r : Request) (w : Writer) (s : World) (w' : Writer)
    (s' : World)
    → post_routes env cfg r w s ≡ some (w', s')
    → Installs (body_router env r.body) s.current s'.current
unfolding post_routes answer_post
post_routes-Installs env cfg r w s w' s' e = elim (Outcome-cases (post_table env cfg r.body s)) [
  | inl (s2, posted) ↦
      let listed : with_state s2 (write_routes env (current_routes s2) w) ≡ some (w', s') =
        ground arith in
      let same = with_state-kept s2 s' (write_routes env (current_routes s2) w) w' listed in
      subst (λ t. Installs (body_router env r.body) s.current t.current) (sym same)
        (Posted-Installs env r.body s s2
          (subst (PostVerdict env r.body s) posted (post_table-PostVerdict env cfg r.body s)))
  | inr (inl ((code, msg), refused)) ↦
      let same : s' ≡ s = ground arith in
      rw (post_table-refuses env cfg r.body s (code, msg) refused)
        (ap (λ (t : World). t.current) same)
  | inr (inr fell) ↦ absurd (ground arith)
]

get_is_no_post : text_eq (text "GET") (text "POST") ≡ false
unfolding text_eq
get_is_no_post = refl

routes_admin-Installs :
    (env : Env) (cfg : BuildConfig) (r : Request) (w : Writer) (s : World) (w' : Writer)
    (s' : World)
    → routes_admin env cfg true r w s ≡ some (w', s')
    → Installs (posted_router env r.method r.body) s.current s'.current
unfolding routes_admin
routes_admin-Installs env cfg r w s w' s' e = elim (Bool-cases (text_eq r.method (text "GET"))) [
  | inl is_get ↦
      let same = with_state-kept s s' (write_routes env (current_routes s) w) w' (ground arith) in
      let no_post : text_eq r.method (text "POST") ≡ false =
        ap (λ m. text_eq m (text "POST")) ((text_eq_iff r.method (text "GET")).0 is_get)
        ∙ get_is_no_post in
      rw no_post (ap (λ (t : World). t.current) same)
  | inr other ↦ elim (Bool-cases (text_eq r.method (text "POST"))) [
    | inl is_post ↦ rw is_post (post_routes-Installs env cfg r w s w' s' (ground arith))
    | inr neither ↦
        let same : s' ≡ s = ground arith in rw neither (ap (λ (t : World). t.current) same)
  ]
]

pub routes_admin-Reloads :
    (env : Env) (cfg : BuildConfig) → Behaves IsHeld (Reloads env) (routes_admin env cfg true)
routes_admin-Reloads env cfg r w s j =
    let b = routes_admin-Behaves env cfg r w s j in
    record {
      w' = b.w';
      s' = b.s';
      ends = b.ends;
      acts = b.acts;
      marks = λ unsent. (b.marks unsent, routes_admin-Installs env cfg r w s b.w' b.s' b.ends);
      keeps = b.keeps;
      frame = b.frame;
    }
