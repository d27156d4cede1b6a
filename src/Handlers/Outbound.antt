-- ===== src/Handlers/Outbound.antt =====
-- internal/proxy/proxy.go: what the reverse proxy makes of a request with a correlation ID.
use decision_gateway.Prelude.{
  ◌≡◌, refl, sym, ap, ◌∙◌, subst, ◌≢◌, ◌⊎◌, inl, inr, Bool, true, false, not, ◌&&◌, Option, none,
  some, List, [], ◌∷◌, Memᴰ, arith, Bool-cases, All, Text, text, text_eq, text_eq_iff, is_blank,
  blank_cases,
}
use decision_gateway.Net.Url.{Url}
use decision_gateway.Net.Headers.{
  Headers, get, set, has, values, named_keys, get-set_self, get-set_ne, get-del_all, values-set_ne,
}
use decision_gateway.Net.Http.{Request}
use decision_gateway.Middleware.Names.{correlation_id_header}
use decision_gateway.Middleware.CorrelationId.{id_from_context}
use decision_gateway.Proxy.Forward.{
  outbound, strip_hops, hop_headers, forward_for, direct, join_path,
}
use decision_gateway.Proxy.Serve.{stamp_id}
use decision_gateway.Handlers.{Inbound, inbound}

-- The client's Connection header does not ask to drop the correlation ID.
abbrev pub KeepsIdOnHop : Headers → Type 0
KeepsIdOnHop h = All (λ j. j ≢ correlation_id_header) (named_keys (values (text "Connection") h))

ne_of_test : (a b : Text) → text_eq a b ≡ false → a ≢ b
ne_of_test a b test e = let same = (text_eq_iff a b).1 e in cc

none_is_id : List Text → Bool
none_is_id [] = true
none_is_id (k ∷ ks) = not (text_eq k correlation_id_header) && none_is_id ks

All-ne_id : (ks : List Text) → none_is_id ks ≡ true → All (λ j. j ≢ correlation_id_header) ks
unfolding none_is_id
All-ne_id [] test = tt
All-ne_id (k ∷ ks) test =
    (ne_of_test k correlation_id_header (ground arith), All-ne_id ks (ground arith))

hop_headers-ne : All (λ j. j ≢ correlation_id_header) hop_headers
unfolding none_is_id text_eq
hop_headers-ne = All-ne_id hop_headers refl

forwarded_for-ne : ◌≢◌ {A = Text} (text "X-Forwarded-For") correlation_id_header
unfolding text_eq
forwarded_for-ne = ne_of_test (text "X-Forwarded-For") correlation_id_header refl

user_agent-ne : ◌≢◌ {A = Text} (text "User-Agent") correlation_id_header
unfolding text_eq
user_agent-ne = ne_of_test (text "User-Agent") correlation_id_header refl

strip_hops-id :
    (h : Headers)
    → KeepsIdOnHop h
    → get correlation_id_header (strip_hops h) ≡ get correlation_id_header h
unfolding strip_hops
strip_hops-id h keeps =
    get-del_all correlation_id_header hop_headers _ hop_headers-ne
    ∙ get-del_all correlation_id_header _ h keeps

forward_for-id :
    (ip : Option Text) (h : Headers)
    → get correlation_id_header (forward_for ip h) ≡ get correlation_id_header h
unfolding forward_for
forward_for-id none h = refl
forward_for-id (some ip) h =
    get-set_ne correlation_id_header (text "X-Forwarded-For") _ h forwarded_for-ne

connection_kept :
    (k v : Text) (h : Headers) → k ≢ text "Connection" → KeepsIdOnHop h → KeepsIdOnHop (set k v h)
connection_kept k v h ne keeps =
    subst (λ vs. All (λ j. j ≢ correlation_id_header) (named_keys vs))
      (sym (values-set_ne (text "Connection") k v h ne)) keeps

-- Where the request goes, and what it keeps.
pub record IsDelivery (u : Url) (x : Inbound) (q : Request) : Type 0 where
  pub method : q.method ≡ x.method
  pub host : q.host ≡ x.host
  pub body : q.body ≡ x.body
  pub to_scheme : q.url.scheme ≡ u.scheme
  pub to_host : q.url.host ≡ u.host
  pub to_path : q.url.path ≡ join_path u.path x.url.path

direct-id :
    (u : Url) (r : Request)
    → KeepsIdOnHop r.header
    → KeepsIdOnHop (direct u r).header
      × (get correlation_id_header (direct u r).header ≡ get correlation_id_header r.header)
unfolding direct text_eq
direct-id u r keeps = elim (Bool-cases (has (text "User-Agent") r.header)) [
  | inl present ↦ rw present (keeps, refl)
  | inr absent ↦ rw absent (
    connection_kept (text "User-Agent") [] r.header (ne_of_test _ _ refl) keeps,
    get-set_ne correlation_id_header (text "User-Agent") [] r.header user_agent-ne,
  )
]

outbound-id :
    (u : Url) (r : Request)
    → KeepsIdOnHop r.header
    → get correlation_id_header (outbound u r).header ≡ get correlation_id_header r.header
unfolding outbound direct
outbound-id u r keeps =
    let (still, same) = direct-id u r keeps in
    forward_for-id r.client_ip _ ∙ strip_hops-id (direct u r).header still ∙ same

-- The request goes to the backend, whether or not there is an ID to stamp.
pub outbound-IsDelivery :
    (u : Url) (r : Request) → IsDelivery u (inbound r) (outbound u (stamp_id r))
unfolding outbound direct stamp_id
outbound-IsDelivery u r = elim (Bool-cases (is_blank (id_from_context r.context))) [
  | inl blank ↦ rw blank (record {
    method = refl;
    host = refl;
    body = refl;
    to_scheme = refl;
    to_host = refl;
    to_path = refl;
  })
  | inr filled ↦ rw filled (record {
    method = refl;
    host = refl;
    body = refl;
    to_scheme = refl;
    to_host = refl;
    to_path = refl;
  })
]

stamped :
    (r : Request)
    → id_from_context r.context ≢ []
    → stamp_id r
      ≡ record r { header = set correlation_id_header (id_from_context r.context) r.header }
unfolding stamp_id
stamped r filled = elim (blank_cases (id_from_context r.context)) [
  | inl (empty, _) ↦ absurd (filled empty)
  | inr (_, test) ↦ rw test refl
]

-- It carries the ID of the context.
pub outbound_carries :
    (u : Url) (r : Request)
    → id_from_context r.context ≢ []
    → KeepsIdOnHop r.header
    → get correlation_id_header (outbound u (stamp_id r)).header ≡ id_from_context r.context
unfolding text_eq
outbound_carries u r filled keeps =
    let id = id_from_context r.context in
    let q : Request = record r { header = set correlation_id_header id r.header } in
    let kept = connection_kept correlation_id_header id r.header (ne_of_test _ _ refl) keeps in
    ap (λ x. get correlation_id_header (outbound u x).header) (stamped r filled)
    ∙ outbound-id u q kept
    ∙ get-set_self correlation_id_header id r.header

-- The client's Connection header asks to drop the correlation ID.
abbrev pub DropsIdOnHop : Headers → Type 0
DropsIdOnHop h = Memᴰ correlation_id_header (named_keys (values (text "Connection") h))

ne_or_listed :
    (ks : List Text) → All (λ j. j ≢ correlation_id_header) ks ⊎ Memᴰ correlation_id_header ks
ne_or_listed [] = inl tt
ne_or_listed (k ∷ ks) = elim (Bool-cases (text_eq k correlation_id_header)) [
  | inl same ↦ inr (Memᴰ.head (sym ((text_eq_iff k correlation_id_header).0 same)))
  | inr other ↦ elim (ne_or_listed ks) [
    | inl keeps ↦ inl (ne_of_test k correlation_id_header other, keeps)
    | inr listed ↦ inr (Memᴰ.tail listed)
  ]
]

pub keeps_or_drops : (h : Headers) → KeepsIdOnHop h ⊎ DropsIdOnHop h
keeps_or_drops h = ne_or_listed (named_keys (values (text "Connection") h))
