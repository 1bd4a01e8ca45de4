-- ===== src/Egress/Below.antt =====
-- crates/fabric-egress/src/lib.rs, the suffix test of EgressPolicy::allows against labels.
use mathlib.Core.List.{reverse, reverse-append, reverse-reverse, append_assoc}
use forgewire_fabric.Prelude.{
  ℕ, ◌+◌, ◌-◌, ◌≤◌, ◌≡◌, ◌≢◌, refl, sym, ap, ◌∙◌, true, ◌&&◌, Option, none, some, [], ◌∷◌, ◌++◌,
  arith, Text, ltb, length, length-append, get_elem?, byte_len, ends_with, IsPrefix,
  starts_with_sound, starts_with-append,
}
use forgewire_fabric.Prelude.Utf8.{is_ascii, as_bytes, as_bytes-ascii}
use forgewire_fabric.Egress.{is_dot, dot_before}

byte_len-ascii : (s : Text) → is_ascii s ≡ true → byte_len s ≡ length s
byte_len-ascii [] h = refl
byte_len-ascii (c ∷ s) h = ground (arith, byte_len-ascii s (ground arith))

ends_with_sound : (s p : Text) → ends_with s p ≡ true → (front : Text) × (s ≡ front ++ p)
ends_with_sound s p h =
    let found : IsPrefix (reverse p) (reverse s) = starts_with_sound (reverse s) (reverse p) h in
    (
      reverse found.0,
      sym (reverse-reverse s)
          ∙ ap reverse found.1
          ∙ reverse-append (reverse p) found.0
          ∙ ap (λ t. reverse found.0 ++ t) (reverse-reverse p),
    )

ends_with-append : (front p : Text) → ends_with (front ++ p) p ≡ true
ends_with-append front p =
    rw (reverse-append front p) (starts_with-append (reverse p) (reverse front))

is_ascii_right : (s t : Text) → is_ascii (s ++ t) ≡ true → is_ascii t ≡ true
is_ascii_right [] t h = h
is_ascii_right (c ∷ s) t h = is_ascii_right s t (ground arith)

last_of :
    (front name : Text)
    → ltb 1 (length front) ≡ true
    → (b : ℕ) → get_elem? (front ++ name) (length front - 1) ≡ some b
    → (label : Text) × (label ≢ []) × (front ≡ label ++ b ∷ [])
last_of [] name h b e = ground arith
last_of (c ∷ []) name h b e = ground arith
last_of (c ∷ d ∷ []) name h b e = (c ∷ [], λ k. cc, ground (arith))
last_of (c ∷ d ∷ f ∷ front) name h b e =
    let ih = last_of (d ∷ f ∷ front) name (ground arith) b (ground arith) in
    (c ∷ ih.0, λ k. cc, ap (λ l. c ∷ l) ih.2)

get_elem?-append :
    (label : Text) (b : ℕ) (name : Text) → get_elem? (label ++ b ∷ name) (length label) ≡ some b
get_elem?-append [] b name = refl
get_elem?-append (c ∷ label) b name = get_elem?-append label b name

-- The host lies below the name: a label at least, a dot, and the name.
abbrev pub IsBelow : Text → Text → Type 0
IsBelow name host = (label : Text) × (label ≢ []) × (host ≡ label ++ b'.' ∷ name)

is_dot_sound : (o : Option ℕ) → is_dot o ≡ true → o ≡ some b'.'
is_dot_sound none h = cc
is_dot_sound (some b) h = ap some (ground arith)

-- With as many bytes as characters, the byte before the suffix is the last one of the front.
dot_place :
    (front name : Text)
    → is_ascii (front ++ name) ≡ true
    → get_elem? (as_bytes (front ++ name)) (byte_len (front ++ name) - byte_len name - 1)
      ≡ get_elem? (front ++ name) (length front - 1)
dot_place front name h =
    let whole = byte_len-ascii (front ++ name) h in
    let part = byte_len-ascii name (is_ascii_right front name h) in
    let place : byte_len (front ++ name) - byte_len name - 1 ≡ length front - 1 =
      omega (arith, whole, part, length-append front name) in
    rw (as_bytes-ascii (front ++ name) h, place) refl

longer_front :
    (front name : Text)
    → is_ascii (front ++ name) ≡ true
    → ltb (byte_len name + 1) (byte_len (front ++ name)) ≡ ltb 1 (length front)
longer_front front name h =
    let whole = byte_len-ascii (front ++ name) h in
    let part = byte_len-ascii name (is_ascii_right front name h) in
    ground (arith, whole, part, length-append front name)

split_last :
    (front name host : Text)
    → host ≡ front ++ name
    → (label : Text) × (label ≢ []) × (front ≡ label ++ b'.' ∷ [])
    → IsBelow name host
split_last front name host e (label, nonempty, f) =
    (label, nonempty, e ∙ ap (λ t. t ++ name) f ∙ append_assoc label (b'.' ∷ []) name)

pub IsBelow-sound :
    (name host : Text)
    → is_ascii host ≡ true
    → ltb (byte_len name + 1) (byte_len host) ≡ true
    → ends_with host name ≡ true
    → dot_before name host ≡ true
    → IsBelow name host
IsBelow-sound name host ascii longer ends dot =
    let (front, e) = ends_with_sound host name ends in
    let plain : is_ascii (front ++ name) ≡ true = sym (ap is_ascii e) ∙ ascii in
    split_last front name host e (
      last_of front name
        (sym (longer_front front name plain)
          ∙ sym (ap (λ h. ltb (byte_len name + 1) (byte_len h)) e)
          ∙ longer)
        b'.'
        (sym (dot_place front name plain) ∙ is_dot_sound _ (sym (ap (dot_before name) e) ∙ dot)))

nonempty_length : (label : Text) → label ≢ [] → 1 ≤ length label
nonempty_length [] h = absurd (h refl)
nonempty_length (c ∷ label) h = omega arith

below_tests :
    (label name : Text)
    → label ≢ []
    → is_ascii (label ++ b'.' ∷ name) ≡ true
    → (ltb (byte_len name + 1) (byte_len (label ++ b'.' ∷ name))
        && ends_with (label ++ b'.' ∷ name) name
        && dot_before name (label ++ b'.' ∷ name))
      ≡ true
below_tests label name h ascii =
    let whole = byte_len-ascii (label ++ b'.' ∷ name) ascii in
    let part = byte_len-ascii name (is_ascii_right label (b'.' ∷ name) ascii) in
    let sum = length-append label (b'.' ∷ name) in
    let longer : ltb (byte_len name + 1) (byte_len (label ++ b'.' ∷ name)) ≡ true =
      ground (arith, whole, part, sum, nonempty_length label h) in
    let ends : ends_with (label ++ b'.' ∷ name) name ≡ true =
      ap (λ t. ends_with t name) (sym (append_assoc label (b'.' ∷ []) name))
      ∙ ends_with-append (label ++ b'.' ∷ []) name in
    let place : byte_len (label ++ b'.' ∷ name) - byte_len name - 1 ≡ length label =
      omega (arith, whole, part, sum) in
    let dot : dot_before name (label ++ b'.' ∷ name) ≡ true =
      rw (as_bytes-ascii (label ++ b'.' ∷ name) ascii, place, get_elem?-append label b'.' name)
        refl in
    rw (longer, ends, dot) refl

pub IsBelow-complete :
    (name host : Text)
    → is_ascii host ≡ true
    → IsBelow name host
    → (ltb (byte_len name + 1) (byte_len host) && ends_with host name && dot_before name host)
      ≡ true
IsBelow-complete name host ascii (label, h, e) =
    rw e (below_tests label name h (sym (ap is_ascii e) ∙ ascii))
