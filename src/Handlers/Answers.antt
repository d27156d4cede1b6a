-- ===== src/Handlers/Answers.antt =====
-- internal/httpapi/health.go and internal/proxy/proxy.go: the probes and the not-found answer.
use decision_gateway.Prelude.{
  ℕ, ◌≡◌, refl, ◌∙◌, ◌≢◌, inl, inr, Bool, Option, some, List, [], ◌∷◌, arith, Bool-cases, Text,
  text, text_eq, text_eq_iff,
}
use decision_gateway.Net.Headers.{Headers, has, set, get-set_ne, has-del_ne}
use decision_gateway.Net.Http.{Request}
use decision_gateway.Middleware.Names.{correlation_id_header}
use decision_gateway.Writer.{Writer}
use decision_gateway.Writer.Acts.{Answers, done, status, body, header, KeepsId}
use decision_gateway.World.{World, Handler}
use decision_gateway.Proxy.Build
use decision_gateway.Proxy.Serve.{not_found}
use decision_gateway.Api.Health.{answer, refuse_method, healthz, readyz}
use decision_gateway.Handlers.{Behaved, Behaves, Untouched, Frame-refl}

has-set_ne : (k j v : Text) (h : Headers) → j ≢ k → has k (set j v h) ≡ has k h
unfolding has set
has-set_ne k j v h ne = ground (arith, text_eq_iff j k, has-del_ne k j h ne)

-- Setting another key keeps the correlation ID.
pub set-KeepsId : (k v : Text) → k ≢ correlation_id_header → KeepsId (set k v)
set-KeepsId k v ne h present =
    (has-set_ne correlation_id_header k v h ne ∙ present, get-set_ne correlation_id_header k v h ne)

pub content_type_ne : ◌≢◌ {A = Text} (text "Content-Type") correlation_id_header
content_type_ne e = cc

pub allow_ne : ◌≢◌ {A = Text} (text "Allow") correlation_id_header
allow_ne e = cc

pub answer-Acts :
    (code : ℕ) (fields : List (Text × Text)) (w : Writer) → Answers w (answer code fields w)
unfolding answer
answer-Acts code fields w = (
  header _ (set-KeepsId (text "Content-Type") (text "application/json") content_type_ne)
      (status code (body _ done)),
  λ p. refl,
)

pub refuse_method-Acts : (w : Writer) → Answers w (refuse_method w)
unfolding refuse_method
refuse_method-Acts w =
    let a = answer-Acts 405 _ _ in
    (header _ (set-KeepsId (text "Allow") (text "GET") allow_ne) a.0, a.1)

module _ {J : Option Build.Handler → Type 0} where
  -- A handler that returns the state as it was.
  pub replies :
      {h : Handler} {r : Request} {w : Writer} {s : World} (w' : Writer)
      → h r w s ≡ some (w', s)
      → Answers w w'
      → J s.current
      → Behaved J Untouched h r w s
  replies {s} w' e acts j = record {
    w' = w';
    s' = s;
    ends = e;
    acts = acts.0;
    marks = λ unsent. ((acts.1 [], refl), refl);
    keeps = j;
    frame = Frame-refl s;
  }

  pub healthz-Behaves : Behaves J Untouched healthz
  unfolding healthz
  healthz-Behaves r w s j = elim (Bool-cases (text_eq r.method (text "GET"))) [
    | inl is_get ↦
        let fields = (text "status", text "ok") ∷ [] in
        replies (answer 200 fields w) (ground arith) (answer-Acts 200 fields w) j
    | inr other ↦ replies (refuse_method w) (ground arith) (refuse_method-Acts w) j
  ]

  pub readyz-Behaves : (ready : World → Text × Bool) → Behaves J Untouched (readyz ready)
  unfolding readyz
  readyz-Behaves ready r w s j = elim (Bool-cases (text_eq r.method (text "GET"))) [
    | inl is_get ↦ elim (Bool-cases (ready s).1) [
      | inl up ↦
          let fields = (text "status", text "ready") ∷ [] in
          replies (answer 200 fields w) (ground arith) (answer-Acts 200 fields w) j
      | inr down ↦
          let fields = (text "reason", (ready s).0) ∷ (text "status", text "not_ready") ∷ [] in
          replies (answer 503 fields w) (ground arith) (answer-Acts 503 fields w) j
    ]
    | inr other ↦ replies (refuse_method w) (ground arith) (refuse_method-Acts w) j
  ]

  pub not_found-Behaves : Behaves J Untouched not_found
  unfolding not_found
  not_found-Behaves r w s j =
      replies _ refl
        (
          header _ (set-KeepsId (text "Content-Type") (text "application/json") content_type_ne)
              (status 404 (body _ done)),
          λ p. refl,
        )
        j
