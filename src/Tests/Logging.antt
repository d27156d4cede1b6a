-- ===== src/Tests/Logging.antt =====
-- The output of a sample boot with one request, and an entry with characters that need escapes.
use decision_gateway.Prelude.{
  ◌≡◌, refl, true, some, List, [], ◌∷◌, ◌++◌, map, arith, Text, text, itoa,
}
use mathlib.Core.List.{reverse}
use decision_gateway.Writer.{server}
use decision_gateway.World.{AccessEntry}
use decision_gateway.Api.Health.{healthz, mark_ready}
use decision_gateway.Pipeline.Identified.{Served}
use decision_gateway.Cmd.Compose.{held, handler}
use decision_gateway.Cmd.Compose.Serving.{Expects, Routed}
use decision_gateway.Cmd.Run.{Runs, next, at, starting, serving, request}
use decision_gateway.Cmd.Run.Lifecycle.{run_serves}
use decision_gateway.Cmd.Run.Logging.{requests, AreLogged, run_logs}
use decision_gateway.Events.{Formats, entry_json, boot_json, stdout}
use decision_gateway.Events.Printable.{IsFormat}
use decision_gateway.Events.Lines.{lines}
use decision_gateway.Events.Fields.{read_strings, entry_keys, read_strings-entry_json}
use decision_gateway.Tests.Sample.{sdk, env, world, options, get_request}
use decision_gateway.Tests.Table.{env-IsRandom}
use decision_gateway.Tests.Serving.{redirect, outside, env-IsSteady, booted, boots, opened}

abbrev pub formats : Formats
formats = record {
  time = λ n. text "1970-01-01T00:00:00Z";
  milliseconds = λ n. text "0.5";
  duration = λ d. text "5s";
}

pub formats-IsFormat : IsFormat formats
formats-IsFormat n = (omega arith, (omega arith, (omega arith, tt)))

-- A path with a line break in it.
served :
    Served env true true
      (Expects held)
      (Routed env options held)
      (handler env healthz redirect options held)
      (get_request (text "/api/a\nb"))
      (mark_ready booted)
served =
    run_serves env sdk options world held booted healthz redirect (at serving (mark_ready booted))
      refl boots env-IsRandom env-IsSteady outside opened (get_request (text "/api/a\nb"))

abbrev runs :
    Runs (handler env healthz redirect options held) (at starting booted) (at serving served.s')
runs = next opened (request (get_request (text "/api/a\nb")) (server served.response) served.ends)

run_logs_example :
    (es : List AccessEntry) × AreLogged es (requests runs)
    × (lines (stdout formats served.s')
        ≡ map (boot_json formats) (reverse served.s'.boot_log)
          ++ map (entry_json formats) (reverse (es ++ booted.access_log)))
run_logs_example =
    run_logs env sdk options world held booted healthz redirect formats (at serving served.s') refl
      boots env-IsRandom env-IsSteady outside formats-IsFormat runs

abbrev pub entry : AccessEntry
entry = record {
  time = 0;
  level = text "info";
  msg = text "gateway.access";
  attrs = record {
    method = text "GET";
    path = text "/a\"\n";
    status = 404;
    duration = 500_000;
    route = [];
    correlation_id = text "id";
    trace_id = [];
    span_id = [];
  };
}

encodes :
    entry_json formats entry
    ≡ text
        "{\"time\":\"1970-01-01T00:00:00Z\",\"level\":\"info\",\"msg\":\"gateway.access\",\"attrs\":{\"method\":\"GET\",\"path\":\"/a\\\"\\n\",\"status\":404,\"duration_ms\":0.5,\"correlation_id\":\"id\"}}"
unfolding entry_json decision_gateway.Api.Json.json_string itoa
encodes = refl

read_strings-entry_json_example :
    (rest : Text) × (read_strings entry_keys (entry_json formats entry)
      ≡ some (
        text "1970-01-01T00:00:00Z"
            ∷ text "info"
            ∷ text "gateway.access"
            ∷ text "GET"
            ∷ text "/a\"\n"
            ∷ [],
        rest,
      ))
unfolding decision_gateway.Api.Utf8.repair
read_strings-entry_json_example = read_strings-entry_json formats entry
