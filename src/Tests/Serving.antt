-- ===== src/Tests/Serving.antt =====
-- A boot with the sample options, and the process that it starts.
use decision_gateway.Prelude.{◌≢◌, panic}
use decision_gateway.Metrics.Registry.Creation.{IsPrometheus}
use decision_gateway.Cmd.Compose.Returning.{setup_returns}
use decision_gateway.Prelude.{
  ℕ, zero, suc, ◌+◌, ◌-◌, ◌*◌, ◌/◌, ◌%◌, ◌≤◌, ◌<◌, ◌≡◌, refl, sym, ap, ◌∙◌, subst, fun_ext, ◌≢◌,
  ◌↔◌, ◌⊎◌, inl, inr, Bool, false, not, ◌&&◌, ◌||◌, Option, none, some, List, [], ◌∷◌, ◌++◌, map,
  Memᴰ, Permᴰ, append_assoc, append-nil, arith, leb, ◌==◌, if◌then◌else◌, leb_iff, ==_iff,
  Bool-cases, Option-cases, List-cases, length, get_elem?, take, drop, keep, length-append,
  take-append, drop-append, get_elem?-append_mid, get_elem?-append_left, Memᴰ-perm, All, All-append,
  All-mem, All-get_elem?, All-of_mem, Text, text, text_eq, text_eq_refl, text_eq_iff, is_blank,
  blank_cases, has_prefix, IsPrefixOf, has_prefix_iff, Outcome, ok, err, panic, Outcome-cases, ℤ,
  pos, negsuc, is_positive, itoa, itoa_digits, atoi, atoi-itoa,
}
use decision_gateway.Net.Url.{Url}
use decision_gateway.Net.Http.{Response, fresh_response}
use decision_gateway.Writer.{Writer, server}
use decision_gateway.World.{World, Handler}
use decision_gateway.Proxy.Build
use decision_gateway.Proxy.Build.{new}
use decision_gateway.Api.Health.{readyz, is_ready, healthz, mark_ready, mark_not_ready}
use decision_gateway.Handlers.Answers.{healthz-Behaves, not_found-Behaves}
use decision_gateway.Proxy.Serve.{not_found}
use decision_gateway.Pipeline.Traced.{IsSteady}
use decision_gateway.Cmd.Compose.{held, handler, setup, build_config}
use decision_gateway.Cmd.Compose.Serving.{AreHandlers}
use decision_gateway.Cmd.Compose.Boot.{BootVerdict, setup-BootVerdict}
use decision_gateway.Cmd.Run.{Runs, here, next, at, starting, serving, open_up}
use decision_gateway.Otel.Bootstrap.{trace_context, baggage}
use decision_gateway.World.{BootEntry}
use decision_gateway.Proxy.Build.{ReverseProxy}
use decision_gateway.Proxy.Build.Selection.{proxy_to}
use decision_gateway.Tests.Sample.{sdk, backend, env, world, options, get_request, router}

abbrev pub redirect : Url → Handler
redirect u = not_found

pub outside : AreHandlers held healthz redirect
outside = record { metrics_behaves = healthz-Behaves; redirect_behaves = λ u. not_found-Behaves }

pub env-IsSteady : IsSteady env
unfolding decision_gateway.Proxy.Forward.is_cut
env-IsSteady = record {
  extract_keeps = λ h c. refl;
  inject_keeps = λ c h. refl;
  whole = λ n rt q. refl;
}

abbrev proxy : ReverseProxy
proxy = proxy_to (build_config options) backend

-- The boot event that the sample boot writes.
abbrev boot_entry : BootEntry
boot_entry = record {
  time = 0;
  level = text "info";
  msg = text "gateway.boot";
  listen = text ":8090";
  routes =
      record { prefix = text "/"; backend = text "b:1" }
      ∷ record { prefix = text "/api"; backend = text "b:1" }
      ∷ [];
  backend_timeout = pos 5_000_000_000;
}

abbrev pub booted : World
booted = record world {
  current =
      some (record { router = router; proxies = (text "/", proxy) ∷ (text "/api", proxy) ∷ [] });
  boot_log = boot_entry ∷ [];
  telemetry = record {
    provider = some (record { exporter = 1; resource = 2 });
    propagators = trace_context ∷ baggage ∷ [];
  };
  clock_reads = 1;
}

pub boots : setup env sdk options world ≡ ok (held, booted)
unfolding setup decision_gateway.Cmd.Flags.parse_route_flags decision_gateway.Cmd.Flags.split_arrow
    decision_gateway.Gateway.new_router decision_gateway.Prelude.text_eq
    decision_gateway.Proxy.Holder.new_holder new decision_gateway.Gateway.routes_of
    Build.new_reverse_proxy decision_gateway.Otel.Bootstrap.bootstrap
    decision_gateway.World.read_clock decision_gateway.Metrics.Registry.new_sink
boots = refl

setup-BootVerdict_example : BootVerdict env sdk options world (setup env sdk options world)
setup-BootVerdict_example = setup-BootVerdict env sdk options world

abbrev pub opened :
    Runs
      (handler env healthz redirect options held)
      (at starting booted)
      (at serving (mark_ready booted))
opened = next here open_up

-- What the composed handler leaves of GET /api/x: the route in the log, the labels, and the request
-- that was sent to the backend.
abbrev routes_logged : Option (Writer × World) → List Text
routes_logged none = []
routes_logged (some (w, s)) = map (λ e. e.attrs.route) s.access_log

logs_route :
    routes_logged (
      handler env healthz redirect options held
        (get_request (text "/api/x"))
        (server fresh_response)
        booted)
    ≡ text "/api" ∷ []
unfolding handler decision_gateway.Middleware.CorrelationId.correlation_id
    decision_gateway.Otel.Trace.trace decision_gateway.Metrics.metrics
    decision_gateway.Middleware.AccessLog.access_log decision_gateway.Cmd.Compose.mux
    decision_gateway.Cmd.Mux.serve_mux text_eq decision_gateway.Cmd.Mux.clean_path has_prefix
    decision_gateway.Cmd.Compose.serve_front decision_gateway.Proxy.Holder.serve_current
    decision_gateway.World.read_clock decision_gateway.Otel.Spans.start_span
    decision_gateway.Net.Headers.get decision_gateway.Middleware.Uuid.new_uuid new
    decision_gateway.Gateway.routes_of decision_gateway.Api.Health.answer healthz is_ready readyz
    decision_gateway.Api.Health.refuse_method decision_gateway.Api.Json.go_quote
    decision_gateway.Api.Json.json_array decision_gateway.Api.Json.json_object
    decision_gateway.Api.Json.json_string decision_gateway.Api.Routes.answer_post
    decision_gateway.Api.Routes.post_routes decision_gateway.Api.Routes.post_table
    decision_gateway.Api.Routes.router_message decision_gateway.Api.Routes.routes_admin
    decision_gateway.Api.Routes.routes_json decision_gateway.Api.Routes.spec_route
    decision_gateway.Api.Routes.spec_routes decision_gateway.Api.Routes.with_state
    decision_gateway.Api.Routes.write_error decision_gateway.Api.Routes.write_routes build_config
    decision_gateway.Cmd.Mux.select decision_gateway.Gateway.match
    decision_gateway.Gateway.new_router decision_gateway.Metrics.labels_of
    decision_gateway.Middleware.AccessLog.access_entry
    decision_gateway.Middleware.CorrelationId.id_from_context
    decision_gateway.Middleware.CorrelationId.resolve_id
    decision_gateway.Middleware.CorrelationId.with_id decision_gateway.Net.Headers.canonical_key
    decision_gateway.Net.Headers.del decision_gateway.Net.Headers.del_all
    decision_gateway.Net.Headers.has decision_gateway.Net.Headers.named_keys
    decision_gateway.Net.Headers.set decision_gateway.Net.Headers.split_commas
    decision_gateway.Net.Headers.trim decision_gateway.Net.Headers.values
    decision_gateway.Net.Http.response_write decision_gateway.Net.Http.response_write_header
    decision_gateway.Otel.Instrumented.propagate decision_gateway.Otel.Instrumented.round_trip
    decision_gateway.Otel.Instrumented.send decision_gateway.Otel.Trace.request_span
    decision_gateway.Otel.Trace.route_attribute decision_gateway.Otel.Trace.traced itoa
    Build.find_proxy decision_gateway.Proxy.Forward.direct decision_gateway.Proxy.Forward.forward
    decision_gateway.Proxy.Forward.forward_for decision_gateway.Proxy.Forward.join_path
    decision_gateway.Proxy.Forward.outbound decision_gateway.Proxy.Forward.copy_reply
    decision_gateway.Proxy.Forward.is_cut decision_gateway.Proxy.Forward.relay
    decision_gateway.Proxy.Forward.strip_hops decision_gateway.Proxy.Holder.current_routes
    decision_gateway.Proxy.Holder.replace not_found decision_gateway.Proxy.Serve.serve
    decision_gateway.Proxy.Serve.stamp_id decision_gateway.Writer.edit_header
    decision_gateway.Writer.set_matched_route decision_gateway.Writer.write
    decision_gateway.Writer.write_header Build.new_reverse_proxy
    decision_gateway.Proxy.Transport.new_tuned_transport
logs_route = refl

env-IsPrometheus : IsPrometheus env.prometheus
env-IsPrometheus = record { buckets = λ bs i. refl; names = λ ts n d. refl }

setup_returns_example : setup env sdk options world ≢ panic
setup_returns_example = setup_returns env sdk options world env-IsPrometheus
