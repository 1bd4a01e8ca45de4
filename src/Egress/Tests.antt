-- ===== src/Egress/Tests.antt =====
-- Runs of the egress proxy, with a net in which one address parses and every name resolves.
use forgewire_fabric.Prelude.{
  ℕ, ◌≡◌, ◌↔◌, refl, true, false, none, some, [], ◌∷◌, Text, text, text_eq, Exists, if◌then◌else◌,
}
use forgewire_fabric.Prelude.Results.{okay}
use forgewire_fabric.Prelude.Json.{string, scalar, arr, obj, Fields, cons, nil, end, field}
use forgewire_fabric.Egress.{
  Net, EgressPolicy, exact, suffix, normalize_dns_name, normalize_requested_host, normalize_rule,
  parse_entry, parse_entries, from_value, rule_allows, allows,
}
use forgewire_fabric.Egress.Wire.{Bytes}
use forgewire_fabric.Egress.Socks.{serve_connection}
use forgewire_fabric.Egress.Allows.{Covers, allows_iff}
use forgewire_fabric.Egress.Proxy.{IsAccounted, serve_connection-IsAccounted}
use forgewire_fabric.Egress.Request.{client}

abbrev net : Net ℕ
net = record {
  parse_ip = λ s. if text_eq s (text "127.0.0.1") then some 1 else none;
  ipv6_text = λ octets. text "::1";
  lookup_host = λ host port. some ((7, port) ∷ []);
  connect = λ address. true;
  write_succeeds = λ n. true;
  bind_error = none;
}

abbrev policy : EgressPolicy
policy = record { rules = suffix (text "example.com") ∷ exact (text "127.0.0.1") ∷ [] }

abbrev declared : Fields Text
declared =
    field (text "allow")
      (arr (
        cons (scalar (string (text " *.Example.com "))) (
          cons (scalar (string (text "127.0.0.1.")))
            (cons (scalar (string (text "*.example.com"))) nil))))
      end

policy_parsed : from_value net (obj declared) ≡ okay policy
unfolding from_value parse_entries parse_entry normalize_rule normalize_requested_host
    normalize_dns_name
policy_parsed = refl

subdomain_allowed : allows net policy (text "API.example.com.") ≡ true
unfolding allows rule_allows normalize_requested_host normalize_dns_name
subdomain_allowed = refl

apex_not_allowed : allows net policy (text "example.com") ≡ false
unfolding allows rule_allows normalize_requested_host normalize_dns_name
apex_not_allowed = refl

lookalike_not_allowed : allows net policy (text "notexample.com") ≡ false
unfolding allows rule_allows normalize_requested_host normalize_dns_name
lookalike_not_allowed = refl

abbrev name : Bytes
name = text "api.example.com"

nothing_parsed : from_value net (obj end) ≡ okay (record { rules = [] })
unfolding from_value
nothing_parsed = refl

allows_iff_example : (allows net policy (text "API.example.com.") ≡ true) ↔ (
    (host : Text) × (normalize_requested_host net (text "API.example.com.") ≡ some host)
    × Exists (Covers net host) policy.rules)
allows_iff_example = allows_iff net policy (text "API.example.com.")

serve_connection-IsAccounted_example :
    IsAccounted net 4 policy []
      (client net name (text "api.example.com") 1 187)
      (serve_connection net 4 policy [] (client net name (text "api.example.com") 1 187))
serve_connection-IsAccounted_example =
    serve_connection-IsAccounted net 4 policy [] (client net name (text "api.example.com") 1 187)
