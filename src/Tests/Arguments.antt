-- ===== src/Tests/Arguments.antt =====
-- Command lines, with numbers and durations that are written with a sign.
use decision_gateway.Prelude.{
  ◌+◌, ◌-◌, ◌<◌, leb, ℕ, ◌≡◌, refl, true, Option, none, some, [], ◌∷◌, arith, ◌==◌, if◌then◌else◌,
  Text, text, text_eq, ok, err, ℤ, pos, negsuc, itoa, atoi, atoi-itoa,
}
use decision_gateway.Cmd.Args.{
  Values, default_options, help_requested, needs_argument, invalid_value, parse_args,
}
use decision_gateway.Cmd.Args.Printing.{Printer, IsInt64, command_line, parse_args-command_line}
use decision_gateway.Tests.Sample.{options}

abbrev in_range : ℕ → ℤ → Option ℤ
in_range n x = if leb n (9_223_372_036_854_775_807) then some x else none

-- A number of 64 bits.
abbrev parse_signed : Text → Option ℤ
parse_signed [] = none
parse_signed (c ∷ s) =
    if c == b'-'
    then in_range (atoi s - 1) (negsuc (atoi s - 1))
    else in_range (atoi s) (pos (atoi s))

in_range-some : (n : ℕ) (x : ℤ) → n < 9_223_372_036_854_775_808 → in_range n x ≡ some x
in_range-some n x small = ground arith

abbrev print_signed : ℤ → Text
print_signed (pos n) = b'+' ∷ itoa n
print_signed (negsuc n) = b'-' ∷ itoa (n + 1)

signed : (n : ℤ) → IsInt64 n → parse_signed (print_signed n) ≡ some n
signed (pos n) small = rw (atoi-itoa n) (in_range-some n (pos n) small)
signed (negsuc n) small =
    let back : n + 1 - 1 ≡ n = omega arith in
    rw (atoi-itoa (n + 1), back) (in_range-some n (negsuc n) small)

abbrev values : Values
values = record { parse_int = parse_signed; parse_duration = parse_signed }

abbrev printer : Printer values
printer = record {
  print_int = print_signed;
  print_duration = print_signed;
  ints = signed;
  durations = signed;
}

parse_args-command_line_example :
    parse_args values (command_line printer options) default_options ≡ ok options
parse_args-command_line_example =
    parse_args-command_line values printer default_options options (omega arith) (omega arith)
      (omega arith)

asks_help :
    parse_args values (text "--otel-enabled" ∷ text "-h" ∷ []) default_options ≡ err help_requested
unfolding parse_args text_eq
asks_help = refl

lacks_value :
    parse_args values (text "--routes-admin" ∷ text "--route" ∷ []) default_options
    ≡ err (needs_argument (text "route"))
unfolding parse_args text_eq
lacks_value = refl

stops :
    parse_args values (text "--metrics-enabled" ∷ text "--" ∷ text "--nothing" ∷ []) default_options
    ≡ ok (record default_options { metrics_enabled = true })
unfolding parse_args text_eq
stops = refl

refuses_value :
    parse_args values (text "--otel-enabled=yes" ∷ []) default_options
    ≡ err (invalid_value (text "otel-enabled") (text "yes"))
unfolding parse_args text_eq
refuses_value = refl
