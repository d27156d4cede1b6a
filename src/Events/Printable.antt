-- ===== src/Events/Printable.antt =====
-- internal/middleware/accesslog.go and bootBoot: the characters of an encoded event.
use decision_gateway.Prelude.{
  ℕ, ◌≤◌, List, [], ◌∷◌, ◌++◌, map, arith, All, All-append, Text, text, itoa, itoa_digits,
}
use decision_gateway.World.{AccessAttrs, AccessEntry, RouteSpec, BootEntry}
use decision_gateway.Api.Utf8.{codes}
use decision_gateway.Api.Json.{
  hex_digit, is_unsafe, escape, escape_all, json_string, json_fields, json_object, json_items,
  json_array,
}
use decision_gateway.Events.{
  Formats, json_members, json_record, omit_empty, attrs_members, entry_json, desc_json, boot_json,
}

-- No control character, and so no line break.
abbrev pub IsPrintable : Text → Type 0
IsPrintable = All (λ c. 32 ≤ c)

joined : (s t : Text) → IsPrintable s → IsPrintable t → IsPrintable (s ++ t)
joined s t p q = All-append (λ c. 32 ≤ c) s t p q

escape-IsPrintable : (c : ℕ) → IsPrintable (escape c)
unfolding escape is_unsafe hex_digit
escape-IsPrintable c = ground arith

escape_all-IsPrintable : (s : List ℕ) → IsPrintable (escape_all s)
unfolding escape_all
escape_all-IsPrintable [] = tt
escape_all-IsPrintable (c ∷ s) =
    joined (escape c) (escape_all s) (escape-IsPrintable c) (escape_all-IsPrintable s)

json_string-IsPrintable : (s : Text) → IsPrintable (json_string s)
unfolding json_string
json_string-IsPrintable s = (
  omega arith,
  joined (escape_all (codes s)) (34 ∷ []) (escape_all-IsPrintable (codes s)) (omega arith, tt),
)

-- What is documented of encoding/json: a number's text has no control characters.
abbrev pub IsFormat : Formats → Type 0
IsFormat f = (n : ℕ) → IsPrintable (f.milliseconds n)

-- The members of an object have printable values.
abbrev AreEncoded : List (Text × Text) → Type 0
AreEncoded = All (λ m. IsPrintable m.1)

-- A key, its value and what follows.
member-IsPrintable :
    (k v rest : Text)
    → IsPrintable v
    → IsPrintable rest
    → IsPrintable (json_string k ++ b':' ∷ v ++ rest)
member-IsPrintable k v rest p q =
    joined (json_string k ++ b':' ∷ v) rest
      (joined (json_string k) (b':' ∷ v) (json_string-IsPrintable k) (omega arith, p)) q

json_members-IsPrintable : (ms : List (Text × Text)) → AreEncoded ms → IsPrintable (json_members ms)
unfolding json_members
json_members-IsPrintable [] h = (omega arith, tt)
json_members-IsPrintable ((k, v) ∷ []) h = member-IsPrintable k v (text "}") h.0 (omega arith, tt)
json_members-IsPrintable ((k, v) ∷ m ∷ ms) h =
    member-IsPrintable k v (b',' ∷ json_members (m ∷ ms)) h.0
      (omega arith, json_members-IsPrintable (m ∷ ms) h.1)

json_record-IsPrintable : (ms : List (Text × Text)) → AreEncoded ms → IsPrintable (json_record ms)
unfolding json_record
json_record-IsPrintable ms h = (omega arith, json_members-IsPrintable ms h)

omit_empty-AreEncoded :
    (k v : Text) (ms : List (Text × Text)) → AreEncoded ms → AreEncoded (omit_empty k v ms)
unfolding omit_empty
omit_empty-AreEncoded k [] ms h = h
omit_empty-AreEncoded k (c ∷ v) ms h = (json_string-IsPrintable (c ∷ v), h)

All-weaken : (t : Text) → All (λ c. b'0' ≤ c) t → IsPrintable t
All-weaken [] h = tt
All-weaken (c ∷ t) h = (omega (arith, h.0), All-weaken t h.1)

attrs_members-AreEncoded :
    (f : Formats) (a : AccessAttrs) → IsFormat f → AreEncoded (attrs_members f a)
unfolding attrs_members
attrs_members-AreEncoded f a is =
    let spans = omit_empty (text "span_id") a.span_id [] in
    let traces = omit_empty (text "trace_id") a.trace_id spans in
    let ids = omit_empty (text "correlation_id") a.correlation_id traces in
    let omitted : AreEncoded (omit_empty (text "route") a.route ids) =
      omit_empty-AreEncoded (text "route") a.route ids (
        omit_empty-AreEncoded (text "correlation_id") a.correlation_id traces (
          omit_empty-AreEncoded (text "trace_id") a.trace_id spans
            (omit_empty-AreEncoded (text "span_id") a.span_id [] tt))) in
    (
      json_string-IsPrintable a.method,
      (
        json_string-IsPrintable a.path,
        (All-weaken (itoa a.status) (itoa_digits a.status), (is a.duration, omitted)),
      ),
    )

-- The members that both events begin with.
event-IsPrintable :
    (time level msg attrs : Text)
    → IsPrintable attrs
    → IsPrintable (
        json_record (
          (text "time", json_string time)
          ∷ (text "level", json_string level)
          ∷ (text "msg", json_string msg)
          ∷ (text "attrs", attrs)
          ∷ []))
event-IsPrintable time level msg attrs p =
    json_record-IsPrintable
      ((text "time", json_string time)
        ∷ (text "level", json_string level)
        ∷ (text "msg", json_string msg)
        ∷ (text "attrs", attrs)
        ∷ [])
      (
        json_string-IsPrintable time,
        (json_string-IsPrintable level, (json_string-IsPrintable msg, (p, tt))),
      )

pub entry_json-IsPrintable :
    (f : Formats) (e : AccessEntry) → IsFormat f → IsPrintable (entry_json f e)
unfolding entry_json
entry_json-IsPrintable f e is =
    event-IsPrintable (f.time e.time) e.level e.msg (json_record (attrs_members f e.attrs))
      (json_record-IsPrintable (attrs_members f e.attrs) (attrs_members-AreEncoded f e.attrs is))

json_fields-IsPrintable : (fs : List (Text × Text)) → IsPrintable (json_fields fs)
unfolding json_fields
json_fields-IsPrintable [] = (omega arith, tt)
json_fields-IsPrintable ((k, v) ∷ []) =
    member-IsPrintable k (json_string v) (text "}") (json_string-IsPrintable v) (omega arith, tt)
json_fields-IsPrintable ((k, v) ∷ m ∷ ms) =
    member-IsPrintable k (json_string v) (b',' ∷ json_fields (m ∷ ms)) (json_string-IsPrintable v)
      (omega arith, json_fields-IsPrintable (m ∷ ms))

json_items-IsPrintable : (vs : List Text) → All IsPrintable vs → IsPrintable (json_items vs)
unfolding json_items
json_items-IsPrintable [] h = (omega arith, tt)
json_items-IsPrintable (v ∷ []) h = joined v (text "]") h.0 (omega arith, tt)
json_items-IsPrintable (v ∷ w ∷ vs) h =
    joined v (b',' ∷ json_items (w ∷ vs)) h.0 (omega arith, json_items-IsPrintable (w ∷ vs) h.1)

descs-IsPrintable : (ds : List RouteSpec) → All IsPrintable (map desc_json ds)
unfolding desc_json json_object
descs-IsPrintable [] = tt
descs-IsPrintable (d ∷ ds) = (
  (
    omega arith,
    json_fields-IsPrintable ((text "backend", d.backend) ∷ (text "prefix", d.prefix) ∷ []),
  ),
  descs-IsPrintable ds,
)

pub boot_json-IsPrintable : (f : Formats) (b : BootEntry) → IsPrintable (boot_json f b)
unfolding boot_json json_array
boot_json-IsPrintable f b =
    let items = json_items-IsPrintable (map desc_json b.routes) (descs-IsPrintable b.routes) in
    let attrs : List (Text × Text) =
      (text "backend_timeout", json_string (f.duration b.backend_timeout))
      ∷ (text "listen", json_string b.listen)
      ∷ (text "routes", json_array (map desc_json b.routes))
      ∷ [] in
    event-IsPrintable (f.time b.time) b.level b.msg (json_record attrs) (
      json_record-IsPrintable attrs (
        json_string-IsPrintable (f.duration b.backend_timeout),
        (json_string-IsPrintable b.listen, ((omega arith, items), tt)),
      ))
