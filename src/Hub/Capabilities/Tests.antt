-- ===== src/Hub/Capabilities/Tests.antt =====
-- The predicates of the tests of the hub, with signed integers as the numbers.
use forgewire_fabric.Prelude.{
  ◌≡◌, ◌≢◌, ◌↔◌, refl, ◌&&◌, true, none, some, [], Text, text, to_ascii_lowercase, trim,
}
use forgewire_fabric.Prelude.Int.{ℤ, pos, ltb_ℤ, leb_ℤ, decimal_ℤ}
use forgewire_fabric.Prelude.Json.{
  Json, number, scalar, arr, obj, nil, cons, end, field, string_value,
}
use forgewire_fabric.Hub.Capabilities.{Numbers, unquoted, parse_literal, parse}
use forgewire_fabric.Hub.Capabilities.Resolve.{display, resolve, version_tuple, compare_ordered}
use forgewire_fabric.Hub.Capabilities.Matching.{
  met, evaluate, outcome, collect_missing, match_required,
}
use forgewire_fabric.Hub.Capabilities.Matching.Panics.{IsLoneQuote, parse_literal_panics_iff}
use forgewire_fabric.Hub.Capabilities.Matching.Orders.{IsAtLeast, IsMore, IsAtMost, IsLess}
use forgewire_fabric.Hub.Capabilities.Matching.Meaning.{
  asks, asks_presence, IsCompatible, Contains, IsPresent, evaluate_iff,
}

abbrev print : Json ℤ → Text
print (scalar (number n)) = decimal_ℤ n
print v = []

abbrev numbers : Numbers ℤ
numbers = record {
  from_i64 = λ n. n;
  parse_f64 = λ s. none;
  num_eq = λ a b. leb_ℤ a b && leb_ℤ b a;
  num_ltb = ltb_ℤ;
  num_leb = leb_ℤ;
  to_string = print;
  to_lowercase = to_ascii_lowercase;
}

abbrev caps : Json ℤ
caps = obj (
    field (text "gpu") (string_value (text "nvidia:cuda:12.4")) (
      field (text "python") (string_value (text "3.13.1")) (
        field (text "ram_gb") (scalar (number (pos 64)))
          (field (text "toolchains") (arr (cons (string_value (text "rust")) nil)) end))))

abbrev required : Json ℤ
required = arr (
    cons (string_value (text "toolchains.rust")) (
      cons (string_value (text "python ~= 3.12")) (
        cons (string_value (text "ram_gb >= 32"))
          (cons (string_value (text "gpu.cuda >= 12")) nil))))

all_met : match_required numbers required caps ≡ some (true, [])
unfolding match_required collect_missing outcome evaluate parse parse_literal unquoted resolve
    version_tuple compare_ordered
all_met = refl

panics : match_required numbers (arr (cons (string_value (text "ram_gb == \"")) nil)) caps ≡ none
unfolding match_required collect_missing outcome evaluate parse parse_literal unquoted resolve
    version_tuple compare_ordered
panics = refl

at_python : resolve numbers caps (text "python") ≡ some (string_value (text "3.13.1"))
unfolding resolve
at_python = refl

evaluate_iff_example :
    let v : Json ℤ = string_value (text "3.13.1") in
    let l : Json ℤ = string_value (text "3.12") in
    ((evaluate numbers (asks (text "python") (text "python") (text "==") l) caps ≡ met)
      ↔ (display numbers v ≡ display numbers l))
    × ((evaluate numbers (asks (text "python") (text "python") (text "!=") l) caps ≡ met)
        ↔ (display numbers v ≢ display numbers l))
    × ((evaluate numbers (asks (text "python") (text "python") (text ">=") l) caps ≡ met)
        ↔ IsAtLeast numbers v l)
    × ((evaluate numbers (asks (text "python") (text "python") (text ">") l) caps ≡ met)
        ↔ IsMore numbers v l)
    × ((evaluate numbers (asks (text "python") (text "python") (text "<=") l) caps ≡ met)
        ↔ IsAtMost numbers v l)
    × ((evaluate numbers (asks (text "python") (text "python") (text "<") l) caps ≡ met)
        ↔ IsLess numbers v l)
    × ((evaluate numbers (asks (text "python") (text "python") (text "~=") l) caps ≡ met)
        ↔ IsCompatible numbers v l)
    × ((evaluate numbers (asks (text "python") (text "python") (text "in") l) caps ≡ met)
        ↔ Contains numbers v l)
    × ((evaluate numbers (asks_presence (text "python") (text "python")) caps ≡ met)
        ↔ IsPresent numbers v)
evaluate_iff_example =
    evaluate_iff numbers caps (text "python") (string_value (text "3.13.1")) at_python
      (text "python") (string_value (text "3.12"))

parse_literal_panics_iff_example :
    (parse_literal numbers (text " \" ") ≡ none) ↔ IsLoneQuote (trim (text " \" "))
parse_literal_panics_iff_example = parse_literal_panics_iff numbers (text " \" ")
