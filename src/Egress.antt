-- ===== src/Egress.antt =====
-- crates/fabric-egress/src/lib.rs, the allowlist: host rules, the policy parsed from JSON, and the
-- decision on a requested host. The standard library's parse of an IP address is a parameter.
pub mod Wire
pub mod Socks
pub mod Hosts
pub mod Below
pub mod Allows
pub mod Listed
pub mod Rules
pub mod Proxy
pub mod Request
mod Tests
use forgewire_fabric.Prelude.{
  ℕ, suc, ◌+◌, ◌-◌, Bool, true, false, not, ◌&&◌, ◌||◌, Option, none, some, List, [], ◌∷◌, ◌++◌,
  Text, text, text_eq, ltb, leb, ◌==◌, if◌then◌else◌, any, all, is_empty, length, get_elem?,
  byte_len, contains_char, split, starts_with, strip_prefix, to_ascii_lowercase, trim,
  trim_end_char, ends_with,
}
use forgewire_fabric.Prelude.Utf8.{as_bytes, is_ascii}
use forgewire_fabric.Prelude.Results.{Result, err, okay, and_then}
use forgewire_fabric.Prelude.Json.{
  Scalar, string, Json, scalar, arr, obj, Fields, get_field, to_list,
}

-- What the proxy asks of the standard library, of the network and of the socket of a client:
-- IP addresses with their parse and the print of version 6, name resolution, whether an address
-- can be connected to, whether the n-th write to the client succeeds, and the error of binding the
-- proxy's own socket, if there is one.
pub record Net (Ip : Type 0) : Type 0 where
  pub parse_ip : Text → Option Ip
  pub ipv6_text : List ℕ → Text
  pub lookup_host : Text → ℕ → Option (List (Ip × ℕ))
  pub connect : Ip × ℕ → Bool
  pub write_succeeds : ℕ → Bool
  pub bind_error : Option Text

pub data EgressError : Type 0 where
  policy_not_object : EgressError
  allow_not_array : EgressError
  allow_entry_not_string : ℕ → EgressError
  invalid_host_rule : Text → EgressError
  bind : Text → EgressError

pub data HostRule : Type 0 where
  exact : Text → HostRule
  suffix : Text → HostRule

pub record EgressPolicy : Type 0 where
  pub rules : List HostRule

abbrev pub rule_eq : HostRule → HostRule → Bool
rule_eq (exact s) (exact t) = text_eq s t
rule_eq (exact s) (suffix t) = false
rule_eq (suffix s) (exact t) = false
rule_eq (suffix s) (suffix t) = text_eq s t

abbrev pub is_ascii_alphanumeric : ℕ → Bool
is_ascii_alphanumeric b =
    (leb b'0' b && leb b b'9') || (leb b'A' b && leb b b'Z') || (leb b'a' b && leb b b'z')

abbrev pub ends_with_char : ℕ → Text → Bool
ends_with_char c [] = false
ends_with_char c (d ∷ []) = d == c
ends_with_char c (d ∷ e ∷ s) = ends_with_char c (e ∷ s)

-- A label passes the five tests of the loop; its bytes are tested one by one.
abbrev pub label_ok : Text → Bool
label_ok label = not (
    is_empty label
    || ltb 63 (byte_len label)
    || starts_with label (text "-")
    || ends_with_char b'-' label
    || not (all (λ b. is_ascii_alphanumeric b || b == b'-') (as_bytes label)))

unfoldable pub normalize_dns_name : Text → Option Text
normalize_dns_name raw =
    if is_empty raw || ltb 253 (byte_len raw) || not (is_ascii raw)
    then none
    else if not (all label_ok (split b'.' raw))
    then none
    else some (to_ascii_lowercase raw)

abbrev pub is_some {ℓ} : {A : Type ℓ} → Option A → Bool
is_some none = false
is_some (some a) = true

-- The byte before the suffix, which must be a dot.
abbrev pub is_dot : Option ℕ → Bool
is_dot none = false
is_dot (some b) = b == b'.'

abbrev pub dot_before : Text → Text → Bool
dot_before name host = is_dot (get_elem? (as_bytes host) (byte_len host - byte_len name - 1))

-- The push of a rule that is not there yet.
abbrev pub push_rule : HostRule → List HostRule → List HostRule
push_rule normalized rules =
    if any (rule_eq normalized) rules then rules else rules ++ normalized ∷ []

module _ {Ip : Type 0} (net : Net Ip) where
  open net use {parse_ip}

  pub normalize_requested_host : Text → Option Text
  unfolding normalize_dns_name
  normalize_requested_host raw =
      let trimmed = to_ascii_lowercase (trim_end_char b'.' (trim raw)) in
      if is_some (parse_ip trimmed) then some trimmed else normalize_dns_name trimmed

  abbrev rule_of : Text → (Text → HostRule) → Option Text → Result EgressError HostRule
  rule_of raw f none = err (invalid_host_rule raw)
  rule_of raw f (some host) = okay (f host)

  pub normalize_rule : Text → Result EgressError HostRule
  unfolding normalize_requested_host normalize_dns_name
  normalize_rule raw = elim (strip_prefix (trim raw) (text "*.")) [
    | some name ↦
        if contains_char b'*' name
        then err (invalid_host_rule raw)
        else rule_of raw suffix (normalize_dns_name name)
    | none ↦
        if contains_char b'*' (trim raw)
        then err (invalid_host_rule raw)
        else rule_of raw exact (normalize_requested_host (trim raw))
  ]

  -- One entry of `allow`, and the loop over the entries from an index on.
  pub parse_entry : ℕ → Json Text → Result EgressError HostRule
  unfolding normalize_rule
  parse_entry index (scalar (string raw)) = normalize_rule raw
  parse_entry index entry = err (allow_entry_not_string index)

  pub parse_entries : ℕ → List (Json Text) → List HostRule → Result EgressError (List HostRule)
  unfolding parse_entry
  parse_entries index [] rules = okay rules
  parse_entries index (entry ∷ entries) rules =
      and_then (parse_entry index entry)
        (λ normalized. parse_entries (index + 1) entries (push_rule normalized rules))

  abbrev pub from_allow : Option (Json Text) → Result EgressError EgressPolicy
  from_allow none = okay (record { rules = [] })
  from_allow (some (arr entries)) =
      and_then (parse_entries 0 (to_list entries) []) (λ rules. okay (record { rules = rules }))
  from_allow (some value) = err allow_not_array

  pub from_value : Json Text → Result EgressError EgressPolicy
  unfolding parse_entries
  from_value (obj fields) = from_allow (get_field (text "allow") fields)
  from_value value = err policy_not_object

  pub rule_allows : Text → HostRule → Bool
  rule_allows host (exact name) = text_eq name host
  rule_allows host (suffix name) =
      not (is_some (parse_ip host))
      && ltb (byte_len name + 1) (byte_len host)
      && ends_with host name
      && dot_before name host

  pub allows : EgressPolicy → Text → Bool
  unfolding normalize_requested_host rule_allows
  allows policy requested_host = elim (normalize_requested_host requested_host) [
    | none ↦ false
    | some host ↦ any (rule_allows host) policy.rules
  ]
