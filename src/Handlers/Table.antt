-- ===== src/Handlers/Table.antt =====
-- internal/httpapi/routes_admin.go: the outcomes of a POST, and what the endpoint does to the
-- writer and the state.
use decision_gateway.Prelude.{
  ℕ, ◌≡◌, refl, sym, ap, ◌∙◌, subst, ◌≢◌, inl, inr, true, some, List, [], ◌∷◌, ◌++◌, arith,
  Bool-cases, Option-cases, Text, text, text_eq, Outcome, ok, err, panic, Outcome-cases,
}
use decision_gateway.Net.Http.{Request}
use decision_gateway.Gateway.{Route, Router, new_router, routes_of}
use decision_gateway.Gateway.Construction.{Promises, new_router-Promises}
use decision_gateway.Writer.{Writer, write, edit_header}
use decision_gateway.Writer.Acts.{Acts, Answers}
use decision_gateway.World.{World, Env, Handler, RouteSpec}
use decision_gateway.Proxy.Build.{BuildConfig, BuildError, new}
use decision_gateway.Proxy.Build
use decision_gateway.Proxy.Build.Wiring.{IsWired, new-IsWired}
use decision_gateway.Proxy.Holder.{replace, current_routes}
use decision_gateway.Api.Routes.{
  write_error, routes_json, write_routes, spec_routes, router_message, post_table, post_routes,
  routes_admin, with_state,
}
use decision_gateway.Api.Routes.Listing.{write_routes_return}
use decision_gateway.Net.Headers.{set}
use decision_gateway.Handlers.{
  Behaved, Behaves, Behaved-marks, Unmarked, Frame, Frame-refl, hands_on,
}
use decision_gateway.Handlers.Answers.{set-KeepsId, content_type_ne, allow_ne, answer-Acts, replies}
use decision_gateway.Handlers.Proxying.{IsHeld}

-- Replacing by an accepted router.
pub replaced :
    (cfg : BuildConfig) (rs : List Route) (router : Router) (s : World)
    → new_router rs ≡ ok router
    → (h : Build.Handler) × (replace cfg (some router) s ≡ ok (record s { current = some h }))
      × (h.router ≡ router)
      × IsWired h
unfolding replace
replaced cfg rs router s e =
    let (h, built, same, wired) = new-IsWired cfg rs router e in (h, rw built, same, wired)

-- The table that a POST puts in place.
pub record Posted (env : Env) (body : Text) (s s' : World) : Type 0 where
  pub specs : List RouteSpec
  pub rs : List Route
  pub router : Router
  pub h : Build.Handler
  pub decoded : env.decode_routes body ≡ some specs
  pub parsed : spec_routes env specs ≡ ok rs
  pub accepted : new_router rs ≡ ok router
  pub swapped : s' ≡ record s { current = some h }
  pub routed : h.router ≡ router
  pub wired : IsWired h

-- A POST puts an accepted table in place, or is refused with status 400.
abbrev pub PostVerdict : Env → Text → World → Outcome (ℕ × Text) World → Type 0
PostVerdict env body s (ok s') = Posted env body s s'
PostVerdict env body s (err (code, msg)) = code ≡ 400
PostVerdict env body s panic = ⊥

module _ (env : Env) where
  spec_routes_returns : (specs : List RouteSpec) → spec_routes env specs ≢ panic
  unfolding spec_routes
  spec_routes_returns [] e = cc
  spec_routes_returns (spec ∷ specs) e = ground (arith, spec_routes_returns specs)

  new_router_returns : (rs : List Route) → new_router rs ≢ panic
  new_router_returns rs e = subst (Promises rs) e (new_router-Promises rs)

  module _ (cfg : BuildConfig) (body : Text) (s : World) where
    accepted_table :
        (spec : RouteSpec) (specs : List RouteSpec) (rs : List Route)
        → env.decode_routes body ≡ some (spec ∷ specs)
        → spec_routes env (spec ∷ specs) ≡ ok rs
        → PostVerdict env body s (post_table env cfg body s)
    unfolding post_table
    accepted_table spec specs rs d p = elim (Outcome-cases (new_router rs)) [
      | inl (router, built) ↦
          let (h, swap, routed, wired) = replaced cfg rs router s built in
          let ends : post_table env cfg body s ≡ ok (record s { current = some h }) =
            ground arith in
          subst (PostVerdict env body s) (sym ends) (record {
            specs = spec ∷ specs;
            rs = rs;
            router = router;
            h = h;
            decoded = d;
            parsed = p;
            accepted = built;
            swapped = refl;
            routed = routed;
            wired = wired;
          })
      | inr (inl (e, failed)) ↦
          refused (text "router validation: " ++ router_message e) (ground arith)
      | inr (inr fell) ↦ absurd (new_router_returns rs fell)
    ]
      where
        refused :
            (msg : Text)
            → post_table env cfg body s ≡ err (400, msg)
            → PostVerdict env body s (post_table env cfg body s)
        refused msg e = subst (PostVerdict env body s) (sym e) refl

    -- A POST never panics. It succeeds only when the body decodes to specs whose routes `new_router`
    -- accepts, and then only the current handler changes, to a wired one for that router; every
    -- refusal has status 400.
    pub post_table-PostVerdict : PostVerdict env body s (post_table env cfg body s)
    unfolding post_table
    post_table-PostVerdict = elim (Option-cases (env.decode_routes body)) [
      | inl malformed ↦ refused (text "malformed JSON body") (ground arith)
      | inr ([], d) ↦ refused (text "routes array is required and must not be empty") (ground arith)
      | inr (spec ∷ specs, d) ↦ elim (Outcome-cases (spec_routes env (spec ∷ specs))) [
        | inl (rs, p) ↦ accepted_table spec specs rs d p
        | inr (inl (backend, failed)) ↦
            refused (text "invalid backend URL: " ++ backend) (ground arith)
        | inr (inr fell) ↦ absurd (spec_routes_returns (spec ∷ specs) fell)
      ]
    ]
      where
        refused :
            (msg : Text)
            → post_table env cfg body s ≡ err (400, msg)
            → PostVerdict env body s (post_table env cfg body s)
        refused msg e = subst (PostVerdict env body s) (sym e) refl

  write_error-Acts : (code : ℕ) (msg : Text) (w : Writer) → Answers w (write_error w code msg)
  unfolding write_error
  write_error-Acts code msg w = answer-Acts code ((text "error", msg) ∷ []) w

  module _ (cfg : BuildConfig) (r : Request) (w : Writer) where
    -- Listing the table of a wired handler.
    lists :
        {h : Handler} {s : World} (s' : World) (held : Build.Handler)
        → s'.current ≡ some held
        → IsWired held
        → Frame s s'
        → s'.forwarded ≡ s.forwarded
        → h r w s ≡ with_state s' (write_routes env (current_routes s') w)
        → Behaved IsHeld Unmarked h r w s
    unfolding current_routes with_state routes_of
    lists s' held e wired frame quiet ends =
        let (objects, shown) = write_routes_return env held.router.routes w wired.backed in
        record {
          w' =
              write (routes_json objects)
                (edit_header (set (text "Content-Type") (text "application/json")) w);
          s' = s';
          ends = ends ∙ ground arith;
          acts =
              Acts.header _
                (set-KeepsId (text "Content-Type") (text "application/json") content_type_ne)
                (Acts.body _ Acts.done);
          marks = λ unsent. (refl, quiet);
          keeps = rw e wired;
          frame = frame;
        }

    refuses :
        {h : Handler} {s : World} (code : ℕ) (msg : Text)
        → IsHeld s.current
        → h r w s ≡ some (write_error w code msg, s)
        → Behaved IsHeld Unmarked h r w s
    refuses code msg j e =
        Behaved-marks (λ f m. m.0)
          (replies (write_error w code msg) e (write_error-Acts code msg w) j)

    post_routes-Behaved :
        (s : World) → IsHeld s.current → Behaved IsHeld Unmarked (post_routes env cfg) r w s
    unfolding post_routes
    post_routes-Behaved s j = elim (Outcome-cases (post_table env cfg r.body s)) [
      | inl (s', e) ↦
          let p : Posted env r.body s s' =
            subst (PostVerdict env r.body s) e (post_table-PostVerdict cfg r.body s) in
          lists s' p.h (ap (λ x. x.current) p.swapped) p.wired
            (subst (Frame s) (sym p.swapped) (record {
              access_log = refl;
              counted = refl;
              observed = refl;
              ready = refl;
              upstream = ([], refl, tt);
            }))
            (ap (λ (x : World). x.forwarded) p.swapped) (ground arith)
      | inr (inl ((code, msg), e)) ↦ refuses code msg j (ground arith)
      | inr (inr fell) ↦
          absurd (subst (PostVerdict env r.body s) fell (post_table-PostVerdict cfg r.body s))
    ]

  pub routes_admin-Behaves :
      (cfg : BuildConfig) → Behaves IsHeld Unmarked (routes_admin env cfg true)
  unfolding routes_admin
  routes_admin-Behaves cfg r w s j = elim (Option-cases (s.current)) [
    | inl empty ↦ absurd (subst IsHeld empty j)
    | inr (held, e) ↦ elim (Bool-cases (text_eq r.method (text "GET"))) [
      | inl is_get ↦ lists cfg r w s held e (subst IsHeld e j) (Frame-refl s) refl (ground arith)
      | inr other ↦ elim (Bool-cases (text_eq r.method (text "POST"))) [
        | inl is_post ↦
            hands_on {k = post_routes env cfg} (ground arith) (post_routes-Behaved cfg r w s j)
        | inr neither ↦
            let allowed = edit_header (set (text "Allow") (text "GET, POST")) w in
            Behaved-marks (λ f m. m.0)
              (replies (write_error allowed 405 (text "method not allowed")) (ground arith)
                (let a = write_error-Acts 405 (text "method not allowed") allowed in
                  (Acts.header _ (set-KeepsId (text "Allow") (text "GET, POST") allow_ne) a.0, a.1))
                j)
      ]
    ]
  ]
