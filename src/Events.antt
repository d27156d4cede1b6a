-- ===== src/Events.antt =====
-- What the gateway writes on stdout: internal/middleware/accesslog.go, the encoding of an access
-- entry, and cmd/decision-gateway/main.go, bootBoot, that of the boot event. The formats of times,
-- durations and floating-point numbers are the library's, and parameters.
pub mod Printable
pub mod Lines
pub mod Fields
pub mod Threads
use decision_gateway.Prelude.{ℕ, List, [], ◌∷◌, ◌++◌, map, Text, text, ℤ, itoa}
use mathlib.Core.List.{reverse}
use decision_gateway.World.{World, AccessAttrs, AccessEntry, RouteSpec, BootEntry}
use decision_gateway.Api.Json.{json_string, json_object, json_array}

pub record Formats : Type 0 where
  -- `t.UTC().Format(time.RFC3339Nano)`, of nanoseconds
  pub time : ℕ → Text
  -- the encoding of a duration's milliseconds as a float64, of nanoseconds
  pub milliseconds : ℕ → Text
  -- `d.String()`, of nanoseconds
  pub duration : ℤ → Text

-- The members of an object: keys, and values that are encoded already.
pub json_members : List (Text × Text) → Text
json_members [] = text "}"
json_members ((k, v) ∷ []) = json_string k ++ b':' ∷ v ++ text "}"
json_members ((k, v) ∷ m ∷ ms) = json_string k ++ b':' ∷ v ++ b',' ∷ json_members (m ∷ ms)

pub json_record : List (Text × Text) → Text
unfolding json_members
json_record ms = b'{' ∷ json_members ms

-- A string member, or none for "".
pub omit_empty : Text → Text → List (Text × Text) → List (Text × Text)
omit_empty k [] ms = ms
omit_empty k (c ∷ v) ms = (k, json_string (c ∷ v)) ∷ ms

pub attrs_members : Formats → AccessAttrs → List (Text × Text)
unfolding omit_empty
attrs_members f a =
    (text "method", json_string a.method)
    ∷ (text "path", json_string a.path)
    ∷ (text "status", itoa a.status)
    ∷ (text "duration_ms", f.milliseconds a.duration)
    ∷ omit_empty (text "route") a.route (
        omit_empty (text "correlation_id") a.correlation_id
          (omit_empty (text "trace_id") a.trace_id (omit_empty (text "span_id") a.span_id [])))

-- The object that an access entry is encoded as.
unfoldable pub entry_json : Formats → AccessEntry → Text
unfolding json_record attrs_members
entry_json f e = json_record (
    (text "time", json_string (f.time e.time))
    ∷ (text "level", json_string e.level)
    ∷ (text "msg", json_string e.msg)
    ∷ (text "attrs", json_record (attrs_members f e.attrs))
    ∷ [])

-- The keys of a map are sorted.
pub desc_json : RouteSpec → Text
desc_json d = json_object ((text "backend", d.backend) ∷ (text "prefix", d.prefix) ∷ [])

-- The object that the boot event is encoded as.
unfoldable pub boot_json : Formats → BootEntry → Text
unfolding json_record desc_json
boot_json f b = json_record (
    (text "time", json_string (f.time b.time))
    ∷ (text "level", json_string b.level)
    ∷ (text "msg", json_string b.msg)
    ∷ (
      text "attrs",
      json_record (
          (text "backend_timeout", json_string (f.duration b.backend_timeout))
          ∷ (text "listen", json_string b.listen)
          ∷ (text "routes", json_array (map desc_json b.routes))
          ∷ []),
    )
    ∷ [])

-- `json.NewEncoder(stdout).Encode`, one value after the other.
pub encode_all : List Text → Text
encode_all [] = []
encode_all (v ∷ vs) = v ++ 10 ∷ encode_all vs

-- What a process has written on stdout: its boot event, and the access entries, oldest first.
unfoldable pub stdout : Formats → World → Text
unfolding encode_all
stdout f s =
    encode_all (map (boot_json f) (reverse s.boot_log))
    ++ encode_all (map (entry_json f) (reverse s.access_log))
