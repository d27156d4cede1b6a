-- ===== src/Api/Routes/Reading.antt =====
-- internal/httpapi/routes_admin.go: the JSON that writeRoutes writes, read back.
use decision_gateway.Prelude.{◌≡◌, refl, All, true, List, [], ◌∷◌, map, Text}
use decision_gateway.Api.Utf8.{is_utf8}
use decision_gateway.Api.Utf8.Repair.{repair_valid}
use decision_gateway.World.{RouteSpec}
use decision_gateway.Api.Json.Strings.{repair_spec, spec_object}
use decision_gateway.Api.Routes.{routes_json}

-- The listing of some specs.
abbrev pub listing : List RouteSpec → Text
listing specs = routes_json (map spec_object specs)

-- The prefix and the backend are UTF-8.
abbrev pub IsUtf8Spec : RouteSpec → Type 0
IsUtf8Spec spec = (is_utf8 spec.prefix ≡ true) × (is_utf8 spec.backend ≡ true)

-- Specs of UTF-8 need no repair.
pub repair_specs : (specs : List RouteSpec) → All IsUtf8Spec specs → map repair_spec specs ≡ specs
repair_specs [] h = refl
repair_specs (spec ∷ specs) ((p, b), h) =
    rw (repair_valid spec.prefix p, repair_valid spec.backend b, repair_specs specs h) refl
