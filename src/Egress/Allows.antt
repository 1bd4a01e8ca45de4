-- ===== src/Egress/Allows.antt =====
-- crates/fabric-egress/src/lib.rs, EgressPolicy::allows against a description by labels.
use mathlib.Core.Path.{subst}
use forgewire_fabric.Prelude.{
  ◌≡◌, ◌↔◌, refl, inl, inr, true, false, Bool-cases, Option-cases, some, arith, Text, text_eq_iff,
  if◌then◌else◌, any_iff, Exists, to_ascii_lowercase, trim, trim_end_char,
}
use forgewire_fabric.Prelude.Utf8.{is_ascii}
use forgewire_fabric.Egress.{
  Net, HostRule, exact, suffix, EgressPolicy, is_some, normalize_requested_host, normalize_dns_name,
  rule_allows, allows,
}
use forgewire_fabric.Egress.Hosts.{normalize_dns_name_ascii, normalize_requested_host_ignores_case}
use forgewire_fabric.Egress.Below.{IsBelow, IsBelow-sound, IsBelow-complete}

module _ {Ip : Type 0} (net : Net Ip) where
  open net use {parse_ip}

  -- What a rule covers: a host itself, or the hosts below a name, which are no IP addresses.
  abbrev pub Covers : Text → HostRule → Type 0
  Covers host (exact name) = name ≡ host
  Covers host (suffix name) = (is_some (parse_ip host) ≡ false) × IsBelow name host

  host_plain :
      (raw host : Text)
      → normalize_requested_host net raw ≡ some host
      → is_some (parse_ip host) ≡ false
      → is_ascii host ≡ true
  unfolding normalize_requested_host
  host_plain raw host h k = of_trimmed (to_ascii_lowercase (trim_end_char b'.' (trim raw))) h
    where
      of_trimmed :
          (trimmed : Text)
          → (if is_some (net.parse_ip trimmed) then some trimmed else normalize_dns_name trimmed)
            ≡ some host
          → is_ascii host ≡ true
      of_trimmed trimmed e = elim (Bool-cases (is_some (net.parse_ip trimmed))) [
        | inl ip ↦ ground arith
        | inr name ↦ normalize_dns_name_ascii trimmed host (ground arith)
      ]

  rule_allows_iff :
      (raw host : Text)
      → normalize_requested_host net raw ≡ some host
      → (rule : HostRule) → (rule_allows net host rule ≡ true) ↔ Covers host rule
  unfolding rule_allows
  rule_allows_iff raw host h (exact name) = text_eq_iff name host
  rule_allows_iff raw host h (suffix name) = (
    λ t.
        let ip : is_some (parse_ip host) ≡ false = ground arith in
        (
          ip,
          IsBelow-sound name host (host_plain raw host h ip) (ground arith) (ground arith)
              (ground arith),
        ),
    λ c. rw (c.0) (IsBelow-complete name host (host_plain raw host h c.0) c.1),
  )

  -- A policy allows exactly the requests whose host, in normal form, one of its rules covers.
  pub allows_iff :
      (policy : EgressPolicy) (requested_host : Text)
      → (allows net policy requested_host ≡ true) ↔ (
          (host : Text) × (normalize_requested_host net requested_host ≡ some host)
          × Exists (Covers host) policy.rules)
  unfolding allows
  allows_iff policy requested_host =
      elim (Option-cases (normalize_requested_host net requested_host)) [
        | inl e ↦ (λ t. ground arith, λ c. ground (arith, c.1))
        | inr (host, e) ↦
            let rules_iff =
              any_iff (rule_allows net host) (rule_allows_iff requested_host host e) policy.rules in
            rw (allows, e)
              (
                λ t. (host, refl, rules_iff.0 t),
                λ c.
                    rules_iff.1
                      (subst (λ h. Exists (Covers h) policy.rules) (ground (arith, c.1)) c.2),
              )
      ]

  -- Whether a request is allowed does not depend on the case of its ASCII letters.
  pub allows_ignores_case :
      (policy : EgressPolicy) (requested_host : Text)
      → allows net policy (to_ascii_lowercase requested_host) ≡ allows net policy requested_host
  unfolding allows
  allows_ignores_case policy requested_host =
      rw (allows, normalize_requested_host_ignores_case net requested_host) refl
