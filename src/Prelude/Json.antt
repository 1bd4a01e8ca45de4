-- ===== src/Prelude/Json.antt =====
-- JSON values as serde_json holds them. The type of numbers is that library's, and a parameter.
use mathlib.Core.Bool.{Bool, true, false, not, ◌&&◌}
use mathlib.Core.Option.{Option, none, some}
use mathlib.Core.List.{List, [], ◌∷◌, map}
use forgewire_fabric.Prelude.Strings.{Text, text_eq}
use forgewire_fabric.Prelude.Tests.{ltb, if◌then◌else◌}

pub data Scalar (N : Type 0) : Type 0 where
  null : Scalar N
  bool : Bool → Scalar N
  number : N → Scalar N
  string : Text → Scalar N

mutual
  pub data Json (N : Type 0) : Type 0 where
    scalar : Scalar N → Json N
    arr : Items N → Json N
    obj : Fields N → Json N

  pub data Items (N : Type 0) : Type 0 where
    nil : Items N
    cons : Json N → Items N → Items N

  -- The entries of an object in the order of its map.
  pub data Fields (N : Type 0) : Type 0 where
    end : Fields N
    field : Text → Json N → Fields N → Fields N

module _ {N : Type 0} where
  -- `map.get(key)`
  abbrev pub get_field : Text → Fields N → Option (Json N)
  get_field key end = none
  get_field key (field k v fs) = if text_eq k key then some v else get_field key fs

  abbrev pub to_list : Items N → List (Json N)
  to_list nil = []
  to_list (cons x xs) = x ∷ to_list xs

-- The order of `String` is that of its bytes, which in UTF-8 is that of its characters.
abbrev pub text_ltb : Text → Text → Bool
text_ltb s [] = false
text_ltb [] (d ∷ t) = true
text_ltb (c ∷ s) (d ∷ t) = if ltb c d then true else if ltb d c then false else text_ltb s t

module _ {N : Type 0} where
  -- `Map::insert`: the map is sorted by keys, and a key that is there gets the new value.
  abbrev pub insert_field : Text → Json N → Fields N → Fields N
  insert_field k v end = field k v end
  insert_field k v (field k' v' fs) =
      let rest = insert_field k v fs in
      if text_eq k k'
      then field k v fs
      else if text_ltb k k'
      then field k v (field k' v' fs)
      else field k' v' rest

  -- `insert` of the entries in turn into an empty map.
  abbrev pub object_from : Fields N → List (Text × Json N) → Fields N
  object_from fs [] = fs
  object_from fs (e ∷ es) = object_from (insert_field e.0 e.1 fs) es

  abbrev pub object : List (Text × Json N) → Json N
  object es = obj (object_from end es)

  abbrev pub items : List (Json N) → Items N
  items [] = nil
  items (x ∷ xs) = cons x (items xs)

  -- `Value::Array(xs.iter().map(f).collect())`
  abbrev pub array {ℓ} : {A : Type ℓ} → (A → Json N) → List A → Json N
  array f xs = arr (items (map f xs))

  abbrev pub string_value : Text → Json N
  string_value s = scalar (string s)

abbrev bool_eq : Bool → Bool → Bool
bool_eq true b = b
bool_eq false b = not b

module _ {N : Type 0} (num_eq : N → N → Bool) where
  -- Equality of JSON values; objects are sorted by keys.
  abbrev mutual
    pub json_eq : Json N → Json N → Bool
    json_eq (scalar null) (scalar null) = true
    json_eq (scalar (bool a)) (scalar (bool b)) = bool_eq a b
    json_eq (scalar (number m)) (scalar (number n)) = num_eq m n
    json_eq (scalar (string s)) (scalar (string t)) = text_eq s t
    json_eq (arr xs) (arr ys) = items_eq xs ys
    json_eq (obj fs) (obj gs) = fields_eq fs gs
    json_eq v w = false

    items_eq : Items N → Items N → Bool
    items_eq nil nil = true
    items_eq nil (cons y ys) = false
    items_eq (cons x xs) nil = false
    items_eq (cons x xs) (cons y ys) = json_eq x y && items_eq xs ys

    fields_eq : Fields N → Fields N → Bool
    fields_eq end end = true
    fields_eq end (field l w gs) = false
    fields_eq (field k v fs) end = false
    fields_eq (field k v fs) (field l w gs) = text_eq k l && (json_eq v w && fields_eq fs gs)
