-- ===== src/Egress/Hosts.antt =====
-- crates/fabric-egress/src/lib.rs, normalize_requested_host and normalize_dns_name: what the
-- normal form of a host is, and that it does not depend on case.
use mathlib.Core.List.{reverse, reverse-cons, map-append}
use forgewire_fabric.Prelude.{
  ℕ, ◌≡◌, refl, sym, ap, inl, inr, Bool, true, Bool-cases, some, [], ◌∷◌, arith, Text, ltb, ◌==◌,
  if◌then◌else◌, lower_char, to_ascii_lowercase, drop_while, drop_end_while, is_whitespace, trim,
  trim_end_char,
}
use forgewire_fabric.Prelude.Utf8.{is_ascii}
use forgewire_fabric.Egress.{Net, is_some, normalize_dns_name, normalize_requested_host}

lower_char_ascii : (c : ℕ) → ltb c 0x80 ≡ true → ltb (lower_char c) 0x80 ≡ true
lower_char_ascii c h = ground arith

lower_is_ascii : (s : Text) → is_ascii s ≡ true → is_ascii (to_ascii_lowercase s) ≡ true
lower_is_ascii [] h = refl
lower_is_ascii (c ∷ s) h =
    rw (lower_char_ascii c (ground arith), lower_is_ascii s (ground arith)) refl

pub normalize_dns_name_ascii :
    (raw host : Text) → normalize_dns_name raw ≡ some host → is_ascii host ≡ true
unfolding normalize_dns_name
normalize_dns_name_ascii raw host h = elim (Bool-cases (is_ascii raw)) [
  | inl e ↦ ground (arith, lower_is_ascii raw e)
  | inr e ↦ ground arith
]

pub lower_char_idem : (c : ℕ) → lower_char (lower_char c) ≡ lower_char c
lower_char_idem c = ground arith

pub lower_idem : (s : Text) → to_ascii_lowercase (to_ascii_lowercase s) ≡ to_ascii_lowercase s
lower_idem [] = refl
lower_idem (c ∷ s) = rw (lower_char_idem c, lower_idem s) refl

map-reverse : (s : Text) → to_ascii_lowercase (reverse s) ≡ reverse (to_ascii_lowercase s)
map-reverse [] = refl
map-reverse (c ∷ s) =
    rw
      (
        reverse-cons c s,
        reverse-cons (lower_char c) (to_ascii_lowercase s),
        map-append lower_char (reverse s) (c ∷ []),
        map-reverse s,
      )
      refl

module _ (f : ℕ → Bool) (same : (c : ℕ) → f (lower_char c) ≡ f c) where
  drop_while-lower :
      (s : Text) → drop_while f (to_ascii_lowercase s) ≡ to_ascii_lowercase (drop_while f s)
  drop_while-lower [] = refl
  drop_while-lower (c ∷ s) = ground (arith, same c, drop_while-lower s)

  drop_end_while-lower :
      (s : Text) → drop_end_while f (to_ascii_lowercase s) ≡ to_ascii_lowercase (drop_end_while f s)
  drop_end_while-lower s =
      rw (sym (map-reverse s), drop_while-lower (reverse s), map-reverse (drop_while f (reverse s)))
        refl

lower_whitespace : (c : ℕ) → is_whitespace (lower_char c) ≡ is_whitespace c
lower_whitespace c = ground arith

lower_dot : (c : ℕ) → (lower_char c == b'.') ≡ (c == b'.')
lower_dot c = ground arith

lower_trimmed :
    (raw : Text)
    → to_ascii_lowercase (trim_end_char b'.' (trim (to_ascii_lowercase raw)))
      ≡ to_ascii_lowercase (trim_end_char b'.' (trim raw))
lower_trimmed raw =
    rw
      (
        drop_while-lower is_whitespace lower_whitespace raw,
        drop_end_while-lower is_whitespace lower_whitespace (drop_while is_whitespace raw),
        drop_end_while-lower (λ d. d == b'.') lower_dot (trim raw),
      )
      (lower_idem (trim_end_char b'.' (trim raw)))

module _ {Ip : Type 0} (net : Net Ip) where
  pub normalize_requested_host_ignores_case :
      (raw : Text)
      → normalize_requested_host net (to_ascii_lowercase raw) ≡ normalize_requested_host net raw
  unfolding normalize_requested_host
  normalize_requested_host_ignores_case raw =
      ap
        (λ trimmed.
          if is_some (net.parse_ip trimmed) then some trimmed else normalize_dns_name trimmed)
        (lower_trimmed raw)
