-- ===== src/Cmd/Compose/Announce.antt =====
-- cmd/decision-gateway/main.go: the start of tracing and the boot event.
use decision_gateway.Prelude.{
  ◌+◌, ◌≡◌, refl, ap, ◌⊎◌, inl, inr, Bool, true, false, some, List, [], ◌∷◌, arith, All, Text, text,
  ok, err,
}
use decision_gateway.Net.Url.{Url}
use decision_gateway.Gateway.{Route}
use decision_gateway.Gateway.Validation.{IsServable}
use decision_gateway.Otel.Bootstrap.{Sdk, Tracer, Globals, bootstrap}
use decision_gateway.World.{World, Env, RouteSpec, BootEntry, read_clock}
use decision_gateway.Cmd.Compose.{
  Options, Front, bootstrap_error, instrumentation, start_tracing, describe_routes, boot_boot,
}

-- The state in which tracing has started, where it is on.
abbrev pub Traced : Bool → Sdk → World → World → Type 0
Traced false sdk s s1 = s1 ≡ s
Traced true sdk s s1 =
    (tracer : Tracer) × (g : Globals) × (bootstrap sdk instrumentation s.telemetry
      ≡ (inr tracer, g))
    × (s1 ≡ record s { telemetry = g })

pair-cases {ℓ κ μ} :
    {A : Type ℓ} {B : Type κ} {C : Type μ} (x : (A ⊎ B) × C)
    → ((a : A) × (c : C) × (x ≡ (inl a, c))) ⊎ ((b : B) × (c : C) × (x ≡ (inr b, c)))
pair-cases (inl a, c) = inl (a, c, refl)
pair-cases (inr b, c) = inr (b, c, refl)

pub start_tracing-cases :
    (b : Bool) (sdk : Sdk) (s : World)
    → ((s1 : World) × (start_tracing b sdk s ≡ ok s1) × Traced b sdk s s1)
      ⊎ ((e : Text) × (start_tracing b sdk s ≡ err (bootstrap_error e))
          × (b ≡ true)
          × ((bootstrap sdk instrumentation s.telemetry).0 ≡ inl e))
unfolding start_tracing
start_tracing-cases false sdk s = inl (s, refl, refl)
start_tracing-cases true sdk s = elim (pair-cases (bootstrap sdk instrumentation s.telemetry)) [
  | inl (e, g, failed) ↦ inr (e, rw failed refl, refl, ap (λ x. x.0) failed)
  | inr (tracer, g, started) ↦
      inl (record s { telemetry = g }, rw started refl, (tracer, g, started, refl))
]

-- A description of the route: its prefix, and its backend's URL.
abbrev pub Describes : Env → Route → RouteSpec → Type 0
Describes env r d =
    (d.prefix ≡ r.prefix) × ((u : Url) × (r.backend ≡ some u) × (d.backend ≡ env.url_string u))

abbrev pub AllDescribe : Env → List Route → List RouteSpec → Type 0
AllDescribe env [] [] = Unit
AllDescribe env (r ∷ rs) (d ∷ ds) = Describes env r d × AllDescribe env rs ds
AllDescribe env _ _ = ⊥

pub describe_routes-AllDescribe :
    (env : Env) (rs : List Route)
    → All IsServable rs
    → (ds : List RouteSpec) × (describe_routes env rs ≡ some ds) × AllDescribe env rs ds
unfolding describe_routes
describe_routes-AllDescribe env [] h = ([], refl, tt)
describe_routes-AllDescribe env (r ∷ rs) ((_, (u, has_u)), h) =
    let (ds, e, all) = describe_routes-AllDescribe env rs h in
    (
      record { prefix = r.prefix; backend = env.url_string u } ∷ ds,
      ground arith,
      ((refl, (u, has_u, refl)), all),
    )

-- The boot event was written, and nothing else changed but the clock's count.
pub record Announced (env : Env) (o : Options) (rs : List Route) (s s' : World) : Type 0 where
  pub entry : BootEntry
  pub described : AllDescribe env rs entry.routes
  pub listen : entry.listen ≡ o.listen
  pub backend_timeout : entry.backend_timeout ≡ o.backend_timeout
  pub logged : s' ≡ record s { boot_log = entry ∷ s.boot_log; clock_reads = s.clock_reads + 1 }

pub boot_boot-Announced :
    (env : Env) (o : Options) (rs : List Route) (front : Front) (s : World)
    → All IsServable rs
    → (s' : World) × (boot_boot env o rs front s ≡ ok (front, s')) × Announced env o rs s s'
unfolding boot_boot read_clock
boot_boot-Announced env o rs front s h =
    let (ds, e, all) = describe_routes-AllDescribe env rs h in
    let entry : BootEntry = record {
      time = env.now s.clock_reads;
      level = text "info";
      msg = text "gateway.boot";
      listen = o.listen;
      routes = ds;
      backend_timeout = o.backend_timeout;
    } in
    (
      record s { boot_log = entry ∷ s.boot_log; clock_reads = s.clock_reads + 1 },
      rw (e, boot_boot) refl,
      record {
        entry = entry;
        described = all;
        listen = refl;
        backend_timeout = refl;
        logged = refl;
      },
    )
