-- ===== src/Api/Health.antt =====
-- internal/httpapi/health.go: the probes, and the readiness flag of cmd/decision-gateway/main.go
-- that Readyz reads.
use decision_gateway.Prelude.{
  ℕ, Bool, true, false, some, List, [], ◌∷◌, ◌++◌, ◌==◌, if◌then◌else◌, Text, text, text_eq,
}
use decision_gateway.Net.Headers.{set}
use decision_gateway.Writer.{Writer, write_header, write, edit_header}
use decision_gateway.World.{World, Handler}
use decision_gateway.Api.Json.{json_object}

-- A JSON answer; the encoder ends it with a line feed.
unfoldable pub answer : ℕ → List (Text × Text) → Writer → Writer
answer status fields w =
    let w1 = edit_header (set (text "Content-Type") (text "application/json")) w in
    write (json_object fields ++ 10 ∷ []) (write_header status w1)

-- The branch for other methods, which both probes have.
unfoldable pub refuse_method : Writer → Writer
unfolding answer
refuse_method w =
    answer 405 ((text "error", text "method not allowed") ∷ [])
      (edit_header (set (text "Allow") (text "GET")) w)

unfoldable pub healthz : Handler
unfolding answer refuse_method
healthz r w s =
    if text_eq r.method (text "GET")
    then some (answer 200 ((text "status", text "ok") ∷ []) w, s)
    else some (refuse_method w, s)

unfoldable pub mark_ready : World → World
mark_ready s = record s { ready = 1 }

unfoldable pub mark_not_ready : World → World
mark_not_ready s = record s { ready = 0 }

-- The reason, and whether the gateway is ready.
unfoldable pub is_ready : World → Text × Bool
is_ready s = if s.ready == 1 then ([], true) else (text "gateway not yet bound to listener", false)

answer_ready : Text → Bool → Writer → Writer
answer_ready reason true w = answer 200 ((text "status", text "ready") ∷ []) w
answer_ready reason false w =
    answer 503 ((text "reason", reason) ∷ (text "status", text "not_ready") ∷ []) w

unfoldable pub readyz : (World → Text × Bool) → Handler
unfolding answer refuse_method answer_ready
readyz ready r w s =
    if text_eq r.method (text "GET")
    then some (answer_ready (ready s).0 (ready s).1 w, s)
    else some (refuse_method w, s)
