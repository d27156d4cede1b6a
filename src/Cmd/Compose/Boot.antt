-- ===== src/Cmd/Compose/Boot.antt =====
-- cmd/decision-gateway/main.go: the outcomes of `run` up to the mux.
use decision_gateway.Prelude.{
  Option, none, ◌⊎◌, Option-cases, ◌≡◌, refl, sym, ap, ◌∙◌, subst, ◌≢◌, inl, inr, Bool, true, false,
  some, List, [], Bool-cases, Outcome, ok, err, panic, Outcome-cases,
}
use decision_gateway.Prelude.Results.{◌>>=◌}
use decision_gateway.Gateway.{Route, Router, new_router}
use decision_gateway.Gateway.Construction.{Promises, new_router-Promises}
use decision_gateway.World.{World, Env}
use decision_gateway.Proxy.Build.{BuildConfig, BuildError, new}
use decision_gateway.Proxy.Build
use decision_gateway.Proxy.Build.Wiring.{IsWired, new-IsWired}
use decision_gateway.Proxy.Holder.{new_holder}
use decision_gateway.Cmd.Flags.{parse_route_flags}
use decision_gateway.Cmd.Flags.Parsing.{AllName, parse_route_flags_iff, parse_route_flags_returns}
use decision_gateway.Metrics.Registry.{Sink, new_sink}
use decision_gateway.Cmd.Compose.{
  start_metrics, Options, Front, held, fixed, RunError, flag_error, router_error, bootstrap_error,
  build_config, instrumentation, start_tracing, boot_boot, build_front, setup, raise,
}
use decision_gateway.Cmd.Compose.Serving.{Expects, Suits}
use decision_gateway.Cmd.Compose.Announce.{
  Traced, start_tracing-cases, Announced, boot_boot-Announced,
}
use decision_gateway.Otel.Bootstrap.{Sdk, bootstrap}
use decision_gateway.Cmd.Compose.Refusal.{Repeats, AllName-IsServable, router_error-Repeats}

-- Where the handler went: into the Holder, or into the mux for good.
abbrev pub Placed : Bool → Build.Handler → World → Front → World → Type 0
Placed true h s front s' = (front ≡ held) × (s' ≡ record s { current = some h })
Placed false h s front s' = (front ≡ fixed h) × (s' ≡ s)

pub record Booted (env : Env) (sdk : Sdk) (o : Options) (s : World) (front : Front) (s' : World)
    : Type 0 where
  pub rs : List Route
  pub router : Router
  pub h : Build.Handler
  -- after the start of tracing, and after the proxy was built
  pub s1 : World
  pub s2 : World
  pub flagged : o.route ≢ []
  pub named : AllName env o.route rs
  pub accepted : new_router rs ≡ ok router
  pub routed : h.router ≡ router
  pub wired : IsWired h
  pub traced : Traced o.otel_enabled sdk s s1
  pub placed : Placed o.routes_admin h s1 front s2
  pub announced : Announced env o rs s2 s'

abbrev pub BootVerdict : Env → Sdk → Options → World → Outcome RunError (Front × World) → Type 0
BootVerdict env sdk o s (ok (front, s')) = Booted env sdk o s front s'
BootVerdict env sdk o s (err (flag_error e)) = parse_route_flags env o.route ≡ err e
BootVerdict env sdk o s (err (router_error e)) = Repeats env o e
BootVerdict env sdk o s (err (bootstrap_error e)) =
    (o.otel_enabled ≡ true) × ((bootstrap sdk instrumentation s.telemetry).0 ≡ inl e)
BootVerdict env sdk o s (err _) = ⊥
BootVerdict env sdk o s panic = (o.metrics_enabled ≡ true) × (new_sink env.prometheus ≡ none)

start_metrics-cases :
    (b : Bool) (env : Env)
    → ((sink : Option Sink) × (start_metrics b env ≡ ok sink))
      ⊎ ((start_metrics b env ≡ panic) × (b ≡ true) × (new_sink env.prometheus ≡ none))
unfolding start_metrics
start_metrics-cases false env = inl (none, refl)
start_metrics-cases true env = elim (Option-cases (new_sink env.prometheus)) [
  | inl refused ↦ inr (rw (start_metrics, refused) refl, refl, refused)
  | inr (sink, made) ↦ inl (some sink, rw (start_metrics, made) refl)
]

module _ (env : Env) (sdk : Sdk) (o : Options) (s : World) (rs : List Route) (router : Router)
    (filled : o.route ≢ []) (n : AllName env o.route rs)
    (accepted : new_router rs ≡ ok router) where
  -- The proxy, in the state in which tracing has started.
  build_front-Placed :
      (s1 : World)
      → (h : Build.Handler) × (front : Front) × (s2 : World) × (build_front o router s1
          ≡ ok (front, s2))
        × (h.router ≡ router)
        × IsWired h
        × Placed o.routes_admin h s1 front s2
  unfolding build_front raise new_holder
  build_front-Placed s1 =
      let (h, built, routed, wired) = new-IsWired (build_config o) rs router accepted in
      elim (Bool-cases (o.routes_admin)) [
        | inl is_admin ↦ (
          h,
          held,
          (record s1 { current = some h }),
          rw (built, is_admin) refl,
          routed,
          wired,
          rw is_admin (refl, refl),
        )
        | inr is_plain ↦
            (h, fixed h, s1, rw (built, is_plain) refl, routed, wired, rw is_plain (refl, refl))
      ]

  -- With the routes accepted, tracing started and the metrics made, nothing fails.
  finish-Booted :
      (s1 : World) (sink : Option Sink)
      → start_metrics o.metrics_enabled env ≡ ok sink
      → Traced o.otel_enabled sdk s s1
      → (front : Front) × (s' : World) × ((build_front o router s1 >>= λ built.
            start_metrics o.metrics_enabled env >>= λ sink. boot_boot env o rs built.0 built.1)
          ≡ ok (front, s'))
        × Booted env sdk o s front s'
  finish-Booted s1 sink metered traced =
      let (h, front, s2, placed_ok, routed, wired, placed) = build_front-Placed s1 in
      let (s', announced_ok, announced) =
        boot_boot-Announced env o rs front s2 (AllName-IsServable env o.route rs n) in
      (
        front,
        s',
        rw (placed_ok, metered) announced_ok,
        record {
          rs = rs;
          router = router;
          h = h;
          s1 = s1;
          s2 = s2;
          flagged = filled;
          named = n;
          accepted = accepted;
          routed = routed;
          wired = wired;
          traced = traced;
          placed = placed;
          announced = announced;
        },
      )

  -- What follows the start of tracing.
  abbrev finish : World → Outcome RunError (Front × World)
  finish s1 = build_front o router s1 >>= λ built.
      start_metrics o.metrics_enabled env >>= λ sink. boot_boot env o rs built.0 built.1

  -- With the routes accepted, only the start of tracing and the metrics can fail.
  finish-Verdict : BootVerdict env sdk o s (start_tracing o.otel_enabled sdk s >>= λ s1. finish s1)
  finish-Verdict = elim (start_tracing-cases o.otel_enabled sdk s) [
    | inl (s1, started, traced) ↦ elim (start_metrics-cases o.metrics_enabled env) [
      | inl (sink, metered) ↦
          let (front, s', ends, b) = finish-Booted s1 sink metered traced in
          let all : (start_tracing o.otel_enabled sdk s >>= λ s1. finish s1) ≡ ok (front, s') =
            rw started ends in
          subst (BootVerdict env sdk o s) (sym all) b
      | inr (fell, on, refused) ↦
          let (h, front, s2, placed_ok, routed, wired, placed) = build_front-Placed s1 in
          let all : (start_tracing o.otel_enabled sdk s >>= λ s1. finish s1) ≡ panic =
            rw (started, placed_ok, fell) refl in
          subst (BootVerdict env sdk o s) (sym all) (on, refused)
    ]
    | inr (e, failed, on, why) ↦
        let all : (start_tracing o.otel_enabled sdk s >>= λ s1. finish s1)
            ≡ err (bootstrap_error e) =
          rw failed refl in
        subst (BootVerdict env sdk o s) (sym all) (on, why)
  ]

-- `setup` panics only where metrics are on and the Prometheus client refuses the two metrics of New.
-- It succeeds only with at least one flag, all of them naming routes that
-- `new_router` accepts, and with tracing off or started; it then leaves a wired handler for these
-- routes, in the Holder where the admin endpoint is on and fixed otherwise, and a boot event that
-- describes these routes, in order. An error of the flags is that of `parse_route_flags`, one of the
-- router reports a prefix that two flags name, one of the bootstrap is the SDK's with tracing on,
-- and there is no other error.
pub setup-BootVerdict :
    (env : Env) (sdk : Sdk) (o : Options) (s : World) → BootVerdict env sdk o s (setup env sdk o s)
unfolding setup raise
setup-BootVerdict env sdk o s = elim (Outcome-cases (parse_route_flags env o.route)) [
  | inl (rs, parsed) ↦
      let (filled, n) = (parse_route_flags_iff env o.route rs).0 parsed in
      elim (Outcome-cases (new_router rs)) [
        | inl (router, accepted) ↦
            let ends : setup env sdk o s ≡ (
                start_tracing o.otel_enabled sdk s >>= λ s1. build_front o router s1 >>= λ built.
                start_metrics o.metrics_enabled env >>= λ sink.
                boot_boot env o rs built.0 built.1) =
              rw (setup, parsed, accepted) refl in
            subst (BootVerdict env sdk o s) (sym ends)
              (finish-Verdict env sdk o s rs router filled n accepted)
        | inr (inl (e, failed)) ↦
            let ends : setup env sdk o s ≡ err (router_error e) = rw (setup, parsed, failed) refl in
            subst (BootVerdict env sdk o s) (sym ends)
              (router_error-Repeats env o rs e filled n failed)
        | inr (inr fell) ↦ absurd (subst (Promises rs) fell (new_router-Promises rs))
      ]
  | inr (inl (e, failed)) ↦
      let ends : setup env sdk o s ≡ err (flag_error e) = rw (setup, failed) refl in
      subst (BootVerdict env sdk o s) (sym ends) failed
  | inr (inr fell) ↦ absurd (parse_route_flags_returns env o.route fell)
]

-- The start of tracing and the boot event leave the table and the readiness flag alone.
Traced-keeps : (b : Bool) (sdk : Sdk) (s s1 : World) → Traced b sdk s s1 → s1.ready ≡ s.ready
Traced-keeps false sdk s s1 e = ap (λ (t : World). t.ready) e
Traced-keeps true sdk s s1 (tracer, g, _, e) = ap (λ (t : World). t.ready) e

Placed-Expects :
    (o : Options) (h : Build.Handler) (b : Bool) (s : World) (front : Front) (s' : World)
    → o.routes_admin ≡ b
    → Placed b h s front s'
    → IsWired h
    → Suits o front × Expects front s'.current × (s'.ready ≡ s.ready)
Placed-Expects o h true s front s' on (at, moved) wired = rw (at, moved) (tt, wired, refl)
Placed-Expects o h false s front s' off (at, moved) wired =
    rw at (off, wired, ap (λ (t : World). t.ready) moved)

-- When `setup` succeeds, what `handler-Served` asks of the catch-all handler holds in the state
-- that it leaves, and the readiness flag is as it was.
pub setup-Expects :
    (env : Env) (sdk : Sdk) (o : Options) (s : World) (front : Front) (s' : World)
    → setup env sdk o s ≡ ok (front, s')
    → Suits o front × Expects front s'.current × (s'.ready ≡ s.ready)
setup-Expects env sdk o s front s' e =
    let b = subst (BootVerdict env sdk o s) e (setup-BootVerdict env sdk o s) in
    let (suits, expects, kept) =
      Placed-Expects o b.h o.routes_admin b.s1 front b.s2 refl b.placed b.wired in
    let moved = b.announced.logged in
    (
      suits,
      subst (λ c. Expects front c) (sym (ap (λ (t : World). t.current) moved)) expects,
      ap (λ (t : World). t.ready) moved ∙ kept ∙ Traced-keeps o.otel_enabled sdk s b.s1 b.traced,
    )
