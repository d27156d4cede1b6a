-- ===== src/Events/Fields.antt =====
-- internal/middleware/accesslog.go: the fields of an encoded access entry, read back.
use decision_gateway.Prelude.{
  ◌≡◌, refl, Option, none, some, List, [], ◌∷◌, ◌++◌, map, append_assoc, ==_iff, Text, text, itoa,
}
use decision_gateway.World.{AccessEntry}
use decision_gateway.Api.Utf8.{codes, repair}
use decision_gateway.Api.Json.{json_string, escape_all, escape, is_unsafe}
use decision_gateway.Api.Json.Reading.{read_string, expect}
use decision_gateway.Api.Json.Strings.{read_string-json_string}
use decision_gateway.Events.{
  Formats, json_members, json_record, attrs_members, omit_empty, entry_json,
}

add_value : Text → Option (List Text × Text) → Option (List Text × Text)
add_value v none = none
add_value v (some (vs, rest)) = some (v ∷ vs, rest)

-- The strings that follow the given texts, one after the other, and what follows the last.
pub read_strings : List Text → Text → Option (List Text × Text)
unfolding add_value
read_strings [] s = some ([], s)
read_strings (t ∷ ts) s = elim (expect t s) [
  | none ↦ none
  | some s1 ↦ elim (read_string s1) [
    | none ↦ none
    | some (v, s2) ↦ add_value v (read_strings ts s2)
  ]
]

-- Texts, each with an encoded string after it, and then the rest.
written : List (Text × Text) → Text → Text
written [] rest = rest
written ((t, v) ∷ ps) rest = t ++ (json_string v ++ written ps rest)

expect-append : (t s : Text) → expect t (t ++ s) ≡ some s
unfolding expect
expect-append [] s = refl
expect-append (c ∷ t) s = rw ((==_iff c c).1 refl) (expect-append t s)

read_strings-written :
    (ps : List (Text × Text)) (rest : Text)
    → read_strings (map (λ p. p.0) ps) (written ps rest) ≡ some (map (λ p. repair p.1) ps, rest)
unfolding read_strings written
read_strings-written [] rest = refl
read_strings-written ((t, v) ∷ ps) rest =
    rw
      (
        read_strings,
        expect-append t (json_string v ++ written ps rest),
        read_string-json_string v (written ps rest),
        read_strings-written ps rest,
      )
      refl

-- What stands before the strings of an access entry that come first.
abbrev pub entry_keys : List Text
entry_keys =
    text "{\"time\":"
    ∷ text ",\"level\":"
    ∷ text ",\"msg\":"
    ∷ text ",\"attrs\":{\"method\":"
    ∷ text ",\"path\":"
    ∷ []

abbrev entry_strings : Formats → AccessEntry → List (Text × Text)
entry_strings f e =
    (text "{\"time\":", f.time e.time)
    ∷ (text ",\"level\":", e.level)
    ∷ (text ",\"msg\":", e.msg)
    ∷ (text ",\"attrs\":{\"method\":", e.attrs.method)
    ∷ (text ",\"path\":", e.attrs.path)
    ∷ []

entry_json-written :
    (f : Formats) (e : AccessEntry)
    → (rest : Text) × (entry_json f e ≡ written (entry_strings f e) rest)
unfolding entry_json json_record json_members attrs_members json_string escape_all escape is_unsafe
    written codes
entry_json-written f e =
    let more : List (Text × Text) =
      (text "duration_ms", f.milliseconds e.attrs.duration)
      ∷ omit_empty (text "route") e.attrs.route (
          omit_empty (text "correlation_id") e.attrs.correlation_id (
            omit_empty (text "trace_id") e.attrs.trace_id
              (omit_empty (text "span_id") e.attrs.span_id []))) in
    let tail = b',' ∷ json_members ((text "status", itoa e.attrs.status) ∷ more) in
    (
      tail ++ text "}",
      rw
          (
            append_assoc (escape_all (codes e.attrs.method) ++ 34 ∷ []) _ (text "}"),
            append_assoc (escape_all (codes e.attrs.path) ++ 34 ∷ []) tail (text "}"),
          )
          refl,
    )

-- An access entry reads back: its first five strings are its time, level and message, and the
-- method and the path of the request, whatever bytes the client put there; a byte that is of no
-- UTF-8 character reads back as U+FFFD.
pub read_strings-entry_json :
    (f : Formats) (e : AccessEntry)
    → (rest : Text) × (read_strings entry_keys (entry_json f e)
        ≡ some (
          map repair (f.time e.time ∷ e.level ∷ e.msg ∷ e.attrs.method ∷ e.attrs.path ∷ []),
          rest,
        ))
read_strings-entry_json f e =
    let (rest, is) = entry_json-written f e in
    (rest, rw is (read_strings-written (entry_strings f e) rest))
