-- ===== src/Cmd/Args.antt =====
-- cmd/decision-gateway/main.go, the head of `run`: the flags with their defaults, and FlagSet.Parse
-- on the command line. strconv.ParseInt and time.ParseDuration are parameters. What Parse prints on
-- stderr is left out.
pub mod Printing
use decision_gateway.Prelude.{
  Bool, true, false, ◌||◌, Option, none, some, List, [], ◌∷◌, ◌==◌, if◌then◌else◌, Text, text,
  text_eq, Outcome, ok, err, ℤ, pos,
}
use mathlib.Core.Option
use decision_gateway.World.{World, Env}
use decision_gateway.Otel.Bootstrap.{Sdk}
use decision_gateway.Cmd.Flags.{flag_set}
use decision_gateway.Prelude.Results.{◌>>=◌}
use decision_gateway.Cmd.Compose.{Options, Front, RunError, setup, raise}

-- The values are an int or a time.Duration, of 64 bits: a text of a larger one is refused.
pub record Values : Type 0 where
  pub parse_int : Text → Option ℤ
  pub parse_duration : Text → Option ℤ

pub data Flag : Type 0 where
  listen_flag : Flag
  backend_timeout_flag : Flag
  upstream_max_idle_conns_flag : Flag
  upstream_idle_timeout_flag : Flag
  upstream_h2c_flag : Flag
  metrics_enabled_flag : Flag
  routes_admin_flag : Flag
  otel_enabled_flag : Flag
  route_flag : Flag

-- The flags that `run` declares, by name.
abbrev pub flags : List (Text × Flag)
flags =
    (text "listen", listen_flag)
    ∷ (text "backend-timeout", backend_timeout_flag)
    ∷ (text "upstream-max-idle-conns", upstream_max_idle_conns_flag)
    ∷ (text "upstream-idle-timeout", upstream_idle_timeout_flag)
    ∷ (text "upstream-h2c", upstream_h2c_flag)
    ∷ (text "metrics-enabled", metrics_enabled_flag)
    ∷ (text "routes-admin", routes_admin_flag)
    ∷ (text "otel-enabled", otel_enabled_flag)
    ∷ (text "route", route_flag)
    ∷ []

-- The options when no flag is given.
abbrev pub default_options : Options
default_options = record {
  listen = text ":8090";
  backend_timeout = pos 5_000_000_000;
  upstream_max_idle_conns = pos 128;
  upstream_idle_timeout = pos 90_000_000_000;
  upstream_h2c = false;
  metrics_enabled = false;
  routes_admin = false;
  otel_enabled = false;
  route = [];
}

pub data ArgsError : Type 0 where
  bad_flag_syntax : Text → ArgsError
  help_requested : ArgsError
  not_defined : Text → ArgsError
  needs_argument : Text → ArgsError
  invalid_value : Text → Text → ArgsError

pub find_flag : Text → List (Text × Flag) → Option Flag
find_flag name [] = none
find_flag name ((n, f) ∷ fs) = if text_eq n name then some f else find_flag name fs

-- IsBoolFlag
pub is_bool_flag : Flag → Bool
is_bool_flag upstream_h2c_flag = true
is_bool_flag metrics_enabled_flag = true
is_bool_flag routes_admin_flag = true
is_bool_flag otel_enabled_flag = true
is_bool_flag _ = false

pub is_one_of : Text → List Text → Bool
is_one_of s [] = false
is_one_of s (t ∷ ts) = text_eq s t || is_one_of s ts

-- strconv.ParseBool
pub parse_bool : Text → Option Bool
unfolding is_one_of
parse_bool s =
    if is_one_of s (text "1" ∷ text "t" ∷ text "T" ∷ text "true" ∷ text "TRUE" ∷ text "True" ∷ [])
    then some true
    else if is_one_of s
        (text "0" ∷ text "f" ∷ text "F" ∷ text "false" ∷ text "FALSE" ∷ text "False" ∷ [])
    then some false
    else none

-- The flag's Set; `none` is an error.
pub set_flag : Values → Flag → Text → Options → Option Options
unfolding parse_bool
set_flag v listen_flag x o = some (record o { listen = x })
set_flag v backend_timeout_flag x o =
    Option.map (λ d. record o { backend_timeout = d }) (v.parse_duration x)
set_flag v upstream_max_idle_conns_flag x o =
    Option.map (λ n. record o { upstream_max_idle_conns = n }) (v.parse_int x)
set_flag v upstream_idle_timeout_flag x o =
    Option.map (λ d. record o { upstream_idle_timeout = d }) (v.parse_duration x)
set_flag v upstream_h2c_flag x o = Option.map (λ b. record o { upstream_h2c = b }) (parse_bool x)
set_flag v metrics_enabled_flag x o =
    Option.map (λ b. record o { metrics_enabled = b }) (parse_bool x)
set_flag v routes_admin_flag x o = Option.map (λ b. record o { routes_admin = b }) (parse_bool x)
set_flag v otel_enabled_flag x o = Option.map (λ b. record o { otel_enabled = b }) (parse_bool x)
set_flag v route_flag x o = some (record o { route = flag_set o.route x })

-- What an argument is: none of a flag, the end of the flags, a flag with a bad name, or a name with
-- the value after its `=`, where there is one.
pub data Argument : Type 0 where
  no_flag : Argument
  end_of_flags : Argument
  bad_flag : Argument
  named : Text → Option Text → Argument

pub cut_equals : Text → Text × Option Text
cut_equals [] = ([], none)
cut_equals (c ∷ s) =
    let (name, value) = cut_equals s in if c == b'=' then ([], some s) else (c ∷ name, value)

pub name_of : Text → Argument
unfolding cut_equals
name_of [] = bad_flag
name_of (c ∷ s) =
    if c == b'-' || c == b'='
    then bad_flag
    else (let (name, value) = cut_equals s in named (c ∷ name) value)

pub read_argument : Text → Argument
unfolding name_of
read_argument [] = no_flag
read_argument (c ∷ []) = no_flag
read_argument (c ∷ d ∷ s) =
    if c == b'-'
    then (if d == b'-'
        then elim s [ [] ↦ end_of_flags | e ∷ t ↦ name_of (e ∷ t) ]
        else name_of (d ∷ s))
    else no_flag

-- The error for a name that no flag has.
pub unknown_flag : Text → ArgsError
unfolding is_one_of
unknown_flag name =
    if is_one_of name (text "help" ∷ text "h" ∷ []) then help_requested else not_defined name

-- One flag with its value.
pub apply_flag : Values → Text → Text → Options → Outcome ArgsError Options
unfolding find_flag set_flag unknown_flag
apply_flag v name x o = elim (find_flag name flags) [
  | none ↦ err (unknown_flag name)
  | some f ↦ elim (set_flag v f x o) [ none ↦ err (invalid_value name x) | some o' ↦ ok o' ]
]

-- Whether the name is that of a flag that needs no value.
pub stands_alone : Text → Bool
unfolding find_flag is_bool_flag
stands_alone name = elim (find_flag name flags) [ none ↦ true | some f ↦ is_bool_flag f ]

-- The loop of Parse. What follows the flags is ignored.
unfoldable pub parse_args : Values → List Text → Options → Outcome ArgsError Options
unfolding read_argument apply_flag stands_alone
parse_args v [] o = ok o
parse_args v (s ∷ []) o = elim (read_argument s) [
  | no_flag ↦ ok o
  | end_of_flags ↦ ok o
  | bad_flag ↦ err (bad_flag_syntax s)
  | named name (some x) ↦ apply_flag v name x o
  | named name none ↦
      if stands_alone name then apply_flag v name (text "true") o else err (needs_argument name)
]
parse_args v (s ∷ x ∷ args) o = elim (read_argument s) [
  | no_flag ↦ ok o
  | end_of_flags ↦ ok o
  | bad_flag ↦ err (bad_flag_syntax s)
  | named name (some y) ↦ do o' ← apply_flag v name y o; parse_args v (x ∷ args) o'
  | named name none ↦ elim (stands_alone name) [
    | true ↦ do o' ← apply_flag v name (text "true") o; parse_args v (x ∷ args) o'
    | false ↦ do o' ← apply_flag v name x o; parse_args v args o'
  ]
]

pub data StartError : Type 0 where
  args_error : ArgsError → StartError
  run_error : RunError → StartError

-- `run` from the command line up to the listener.
pub run_args : Env → Sdk → Values → List Text → World → Outcome StartError (Options × Front × World)
unfolding parse_args
run_args env sdk v args s = do
  o ← raise args_error (parse_args v args default_options)
  built ← raise run_error (setup env sdk o s)
  ok (o, built.0, built.1)
