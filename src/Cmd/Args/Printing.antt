-- ===== src/Cmd/Args/Printing.antt =====
-- cmd/decision-gateway/main.go: a command line for given options.
use decision_gateway.Prelude.{
  ◌≡◌, refl, sym, ap, ◌∙◌, Bool, true, false, none, some, List, [], ◌∷◌, ◌++◌, append_assoc,
  append-nil, Text, text, text_eq, Outcome, ok, ℤ, pos, negsuc, ◌<◌,
}
use decision_gateway.Cmd.Flags.{RouteFlagList, flag_set}
use decision_gateway.Cmd.Compose.{Options}
use decision_gateway.Cmd.Args.{
  Values, ArgsError, is_one_of, parse_bool, set_flag, named, cut_equals, name_of, read_argument,
  apply_flag, stands_alone, parse_args,
}

-- A signed integer of 64 bits.
abbrev pub IsInt64 : ℤ → Type 0
IsInt64 (pos n) = n < 9_223_372_036_854_775_808
IsInt64 (negsuc n) = n < 9_223_372_036_854_775_808

-- Texts of numbers and durations of 64 bits that the library parses back.
pub record Printer (v : Values) : Type 0 where
  pub print_int : ℤ → Text
  pub print_duration : ℤ → Text
  pub ints : (n : ℤ) → IsInt64 n → v.parse_int (print_int n) ≡ some n
  pub durations : (d : ℤ) → IsInt64 d → v.parse_duration (print_duration d) ≡ some d

abbrev pub bool_text : Bool → Text
bool_text true = text "true"
bool_text false = text "false"

abbrev pub route_args : RouteFlagList → List Text
route_args [] = []
route_args (r ∷ rs) = text "--route" ∷ r ∷ route_args rs

-- The command line with every flag.
abbrev pub command_line : {v : Values} → Printer v → Options → List Text
command_line p o =
    text "--listen"
    ∷ o.listen
    ∷ text "--backend-timeout"
    ∷ p.print_duration o.backend_timeout
    ∷ text "--upstream-max-idle-conns"
    ∷ p.print_int o.upstream_max_idle_conns
    ∷ text "-upstream-idle-timeout"
    ∷ p.print_duration o.upstream_idle_timeout
    ∷ (text "--upstream-h2c=" ++ bool_text o.upstream_h2c)
    ∷ (text "--metrics-enabled=" ++ bool_text o.metrics_enabled)
    ∷ (text "--routes-admin=" ++ bool_text o.routes_admin)
    ∷ (text "-otel-enabled=" ++ bool_text o.otel_enabled)
    ∷ route_args o.route

parse_bool-bool_text : (b : Bool) → parse_bool (bool_text b) ≡ some b
unfolding parse_bool is_one_of text_eq
parse_bool-bool_text true = refl
parse_bool-bool_text false = refl

module _ (v : Values) where
  -- A flag and its value in two arguments.
  takes_next :
      (s x name : Text) (args : List Text) (o o' : Options)
      → read_argument s ≡ named name none
      → stands_alone name ≡ false
      → apply_flag v name x o ≡ ok o'
      → parse_args v (s ∷ x ∷ args) o ≡ parse_args v args o'
  unfolding parse_args
  takes_next s x name args o o' is valued sets = rw (parse_args, is, valued, sets) refl

  -- A flag and its value in one argument.
  takes_own :
      (s name y : Text) (args : List Text) (o o' : Options)
      → read_argument s ≡ named name (some y)
      → apply_flag v name y o ≡ ok o'
      → parse_args v (s ∷ args) o ≡ parse_args v args o'
  unfolding parse_args
  takes_own s name y [] o o' is sets = rw (parse_args, is, sets) refl
  takes_own s name y (x ∷ args) o o' is sets = rw (parse_args, is, sets) refl

  takes_routes :
      (rs : RouteFlagList) (o : Options)
      → parse_args v (route_args rs) o ≡ ok (record o { route = o.route ++ rs })
  unfolding parse_args read_argument name_of cut_equals apply_flag set_flag flag_set stands_alone
      text_eq
  takes_routes [] o = ap (λ l. ok (record o { route = l })) (sym (append-nil o.route))
  takes_routes (r ∷ rs) o =
      takes_next (text "--route") r (text "route") (route_args rs) o
        (record o { route = flag_set o.route r }) refl refl refl
      ∙ takes_routes rs (record o { route = flag_set o.route r })
      ∙ ap (λ l. ok (record o { route = l })) (append_assoc o.route (r ∷ []) rs)

  -- A Boolean flag with its value after the `=`, and the rest.
  takes_bool :
      (s name : Text) (b : Bool) (args : List Text) (o o' : Options)
      (out : Outcome ArgsError Options)
      → ((b : Bool) → read_argument (s ++ bool_text b) ≡ named name (some (bool_text b)))
      → apply_flag v name (bool_text b) o ≡ ok o'
      → parse_args v args o' ≡ out
      → parse_args v ((s ++ bool_text b) ∷ args) o ≡ out
  takes_bool s name b args o o' out is sets rest =
      takes_own (s ++ bool_text b) name (bool_text b) args o o' (is b) sets ∙ rest

-- Every choice of options with numbers of 64 bits has a command line that gives it: whatever the options were before, each
-- flag sets its own option, and the routes are appended in the order of their flags. The texts of
-- numbers and durations are such as the library parses back.
pub parse_args-command_line :
    (v : Values) (p : Printer v) (o0 o : Options)
    → IsInt64 o.backend_timeout
    → IsInt64 o.upstream_max_idle_conns
    → IsInt64 o.upstream_idle_timeout
    → parse_args v (command_line p o) o0 ≡ ok (record o { route = o0.route ++ o.route })
unfolding read_argument name_of cut_equals apply_flag set_flag stands_alone text_eq
parse_args-command_line v p o0 o timeout conns idle =
    let o1 : Options = record o0 { listen = o.listen } in
    let o2 : Options = record o1 { backend_timeout = o.backend_timeout } in
    let o3 : Options = record o2 { upstream_max_idle_conns = o.upstream_max_idle_conns } in
    let o4 : Options = record o3 { upstream_idle_timeout = o.upstream_idle_timeout } in
    let o5 : Options = record o4 { upstream_h2c = o.upstream_h2c } in
    let o6 : Options = record o5 { metrics_enabled = o.metrics_enabled } in
    let o7 : Options = record o6 { routes_admin = o.routes_admin } in
    let o8 : Options = record o7 { otel_enabled = o.otel_enabled } in
    takes_next v (text "--listen") o.listen (text "listen") _ o0 o1 refl refl refl
    ∙ takes_next v (text "--backend-timeout") (p.print_duration o.backend_timeout)
        (text "backend-timeout") _ o1 o2 refl refl
        (rw (apply_flag, p.durations o.backend_timeout timeout) refl)
    ∙ takes_next v (text "--upstream-max-idle-conns") (p.print_int o.upstream_max_idle_conns)
        (text "upstream-max-idle-conns") _ o2 o3 refl refl
        (rw (apply_flag, p.ints o.upstream_max_idle_conns conns) refl)
    ∙ takes_next v (text "-upstream-idle-timeout") (p.print_duration o.upstream_idle_timeout)
        (text "upstream-idle-timeout") _ o3 o4 refl refl
        (rw (apply_flag, p.durations o.upstream_idle_timeout idle) refl)
    ∙ takes_bool v (text "--upstream-h2c=") (text "upstream-h2c") o.upstream_h2c _ o4 o5 _
        (λ b. elim b [ true ↦ refl | false ↦ refl ])
        (rw (apply_flag, parse_bool-bool_text o.upstream_h2c) refl)
        (takes_bool v (text "--metrics-enabled=") (text "metrics-enabled") o.metrics_enabled _ o5 o6
          _ (λ b. elim b [ true ↦ refl | false ↦ refl ])
          (rw (apply_flag, parse_bool-bool_text o.metrics_enabled) refl)
          (takes_bool v (text "--routes-admin=") (text "routes-admin") o.routes_admin _ o6 o7 _
            (λ b. elim b [ true ↦ refl | false ↦ refl ])
            (rw (apply_flag, parse_bool-bool_text o.routes_admin) refl)
            (takes_bool v (text "-otel-enabled=") (text "otel-enabled") o.otel_enabled
              (route_args o.route) o7 o8 _ (λ b. elim b [ true ↦ refl | false ↦ refl ])
              (rw (apply_flag, parse_bool-bool_text o.otel_enabled) refl)
              (takes_routes v o.route o8))))
