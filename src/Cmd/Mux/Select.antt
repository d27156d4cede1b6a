-- ===== src/Cmd/Mux/Select.antt =====
-- net/http: the mux's choice among the registered handlers.
use decision_gateway.Prelude.{
  ◌≡◌, refl, sym, ap, ◌∙◌, ◌≢◌, ◌⊎◌, inl, inr, Bool, true, false, ◌||◌, Option, none, some, arith,
  if◌then◌else◌, Bool-cases, Text, text, text_eq,
}
use decision_gateway.Net.Url.{Url}
use decision_gateway.Net.Http.{Request}
use decision_gateway.World.{Handler}
use decision_gateway.Cmd.Mux.{Patterns, clean_path, select, or_rest, serve_mux}
use decision_gateway.Writer.{Writer}
use decision_gateway.World.{World}

-- Where the mux hands a request: to the admin endpoint, to another endpoint or a redirection, or to
-- the catch-all handler.
pub data Way : Type 0 where
  admin : Way
  elsewhere : Way
  proxied : Way

-- The way of a path, by whether the two optional patterns are registered.
unfoldable pub path_way : Bool → Bool → Text → Way
path_way has_metrics has_routes path =
    if text_eq path (text "/healthz")
    then elsewhere
    else if text_eq path (text "/readyz")
    then elsewhere
    else if text_eq path (text "/metrics")
    then (if has_metrics then elsewhere else proxied)
    else if text_eq path (text "/admin/routes")
    then (if has_routes then admin else proxied)
    else proxied

-- No path leads to an admin endpoint that is not there.
pub path_way-no_admin : (has_metrics : Bool) (path : Text) → path_way has_metrics false path ≢ admin
unfolding path_way
path_way-no_admin true path e = ground arith
path_way-no_admin false path e = ground arith

-- Patterns that differ in the admin endpoint only, and whose catch-all handlers do the same with a
-- request, do the same with one that is not for the endpoint.
select-agree :
    (p q : Patterns) (has_metrics : Bool) (r : Request) (w : Writer) (s : World)
    → p.healthz ≡ q.healthz
    → p.readyz ≡ q.readyz
    → p.metrics ≡ q.metrics
    → p.rest r w s ≡ q.rest r w s
    → path_way has_metrics true r.url.path ≢ admin
    → select p r.url.path r w s ≡ select q r.url.path r w s
unfolding select path_way
select-agree p q has_metrics r w s ph pr pm rest ne =
    let path = r.url.path in
    elim (Bool-cases (text_eq path (text "/healthz"))) [
      | inl h ↦ rw h (ap (λ (k : Handler). k r w s) ph)
      | inr nh ↦ elim (Bool-cases (text_eq path (text "/readyz"))) [
        | inl d ↦ rw (nh, d) (ap (λ (k : Handler). k r w s) pr)
        | inr nr ↦ elim (Bool-cases (text_eq path (text "/metrics"))) [
          | inl m ↦
              rw (nh, nr, m)
                (ap (λ (o : Option Handler). or_rest o p.rest r w s) pm
                  ∙ or_rest-agree q.metrics p.rest q.rest r w s rest)
          | inr nm ↦ elim (Bool-cases (text_eq path (text "/admin/routes"))) [
            | inl a ↦ absurd (ne (rw (nh, nr, nm, a) refl))
            | inr na ↦ rw (nh, nr, nm, na) rest
          ]
        ]
      ]
    ]
  where
    or_rest-agree :
        (o : Option Handler) (j k : Handler) (r : Request) (w : Writer) (s : World)
        → j r w s ≡ k r w s
        → or_rest o j r w s ≡ or_rest o k r w s
    or_rest-agree none j k r w s e = e
    or_rest-agree (some h) j k r w s e = refl

-- The pattern is registered, with a handler of which `P` holds, or it is not.
abbrev pub Given : (Handler → Type 0) → Bool → Option Handler → Type 0
Given P true none = ⊥
Given P true (some h) = P h
Given P false none = Unit
Given P false (some h) = ⊥

module _ (P R : Handler → Type 0) where
  -- The selected handler is the one that the way tells.
  abbrev pub Leads : Way → Handler → Handler → Type 0
  Leads elsewhere h rest = P h
  Leads admin h rest = R h
  Leads proxied h rest = h ≡ rest

  metrics-Leads :
      (b : Bool) (o : Option Handler) (rest : Handler)
      → Given P b o
      → Leads (if b then elsewhere else proxied) (or_rest o rest) rest
  metrics-Leads true none rest g = elim g [ ]
  metrics-Leads true (some h) rest g = g
  metrics-Leads false none rest g = refl
  metrics-Leads false (some h) rest g = elim g [ ]

  routes-Leads :
      (b : Bool) (o : Option Handler) (rest : Handler)
      → Given R b o
      → Leads (if b then admin else proxied) (or_rest o rest) rest
  routes-Leads true none rest g = elim g [ ]
  routes-Leads true (some h) rest g = g
  routes-Leads false none rest g = refl
  routes-Leads false (some h) rest g = elim g [ ]

  pub select-Leads :
      (p : Patterns) (has_metrics has_routes : Bool) (path : Text)
      → P p.healthz
      → P p.readyz
      → Given P has_metrics p.metrics
      → Given R has_routes p.routes
      → Leads (path_way has_metrics has_routes path) (select p path) p.rest
  unfolding select path_way
  select-Leads p has_metrics has_routes path ph pr pm po =
      elim (Bool-cases (text_eq path (text "/healthz"))) [
        | inl h ↦ rw h ph
        | inr nh ↦ elim (Bool-cases (text_eq path (text "/readyz"))) [
          | inl r ↦ rw (nh, r) pr
          | inr nr ↦ elim (Bool-cases (text_eq path (text "/metrics"))) [
            | inl m ↦ rw (nh, nr, m) (metrics-Leads has_metrics p.metrics p.rest pm)
            | inr nm ↦ elim (Bool-cases (text_eq path (text "/admin/routes"))) [
              | inl a ↦ rw (nh, nr, nm, a) (routes-Leads has_routes p.routes p.rest po)
              | inr na ↦ rw (nh, nr, nm, na) refl
            ]
          ]
        ]
      ]

-- The path needs no redirection.
unfoldable pub is_direct : Text → Text → Bool
is_direct method path = text_eq method (text "CONNECT") || text_eq (clean_path path) path

-- A request is handed to the selected handler, or to the redirection.
pub serve_mux_cases :
    (redirect : Url → Handler) (p : Patterns) (r : Request) (w : Writer) (s : World)
    → ((is_direct r.method r.url.path ≡ true)
        × (serve_mux redirect p r w s ≡ select p r.url.path r w s))
      ⊎ ((is_direct r.method r.url.path ≡ false)
          × ((u : Url) × (serve_mux redirect p r w s ≡ redirect u r w s)))
unfolding serve_mux is_direct
serve_mux_cases redirect p r w s =
    elim (Bool-cases
      (text_eq r.method (text "CONNECT") || text_eq (clean_path r.url.path) r.url.path)) [
        | inl direct ↦ inl (direct, rw direct refl)
        | inr unclean ↦
            inr (unclean, (record (r.url) { path = clean_path r.url.path }, rw unclean refl))
      ]

serve_mux-direct :
    (redirect : Url → Handler) (p : Patterns) (r : Request) (w : Writer) (s : World)
    → is_direct r.method r.url.path ≡ true
    → serve_mux redirect p r w s ≡ select p r.url.path r w s
unfolding is_direct serve_mux
serve_mux-direct redirect p r w s direct = rw direct refl

serve_mux-unclean :
    (redirect : Url → Handler) (p : Patterns) (r : Request) (w : Writer) (s : World)
    → is_direct r.method r.url.path ≡ false
    → serve_mux redirect p r w s ≡ redirect (record (r.url) { path = clean_path r.url.path }) r w s
unfolding is_direct serve_mux
serve_mux-unclean redirect p r w s unclean = rw unclean refl

-- The same behind the mux.
pub serve_mux-agree :
    (redirect : Url → Handler) (p q : Patterns) (has_metrics : Bool) (r : Request) (w : Writer)
    (s : World)
    → p.healthz ≡ q.healthz
    → p.readyz ≡ q.readyz
    → p.metrics ≡ q.metrics
    → p.rest r w s ≡ q.rest r w s
    → (if is_direct r.method r.url.path then path_way has_metrics true r.url.path else elsewhere)
      ≢ admin
    → serve_mux redirect p r w s ≡ serve_mux redirect q r w s
serve_mux-agree redirect p q has_metrics r w s ph pr pm rest ne =
    elim (Bool-cases (is_direct r.method r.url.path)) [
      | inl direct ↦
          serve_mux-direct redirect p r w s direct
          ∙ select-agree p q has_metrics r w s ph pr pm rest (λ e. ne (rw direct e))
          ∙ sym (serve_mux-direct redirect q r w s direct)
      | inr unclean ↦
          serve_mux-unclean redirect p r w s unclean
          ∙ sym (serve_mux-unclean redirect q r w s unclean)
    ]
