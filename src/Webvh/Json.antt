-- ===== src/Webvh/Json.antt =====
-- internal/webvh/log.go: JSON values and what json.Unmarshal makes of them. A text is the list of its
-- bytes; `null` leaves the destination as it is. Objects have no repeated names, which the
-- canonicaliser refuses beforehand.
use vtafarm_api.Base.{
  ℕ, Bool, true, false, ◌&&◌, List, [], ◌∷◌, Option, none, some, ltb, any, if◌then◌else◌,
}
use Prim.Native.Nat.{◌^◌}
use vtafarm_api.Keys.DidKey.{same_bytes}

abbrev pub Text : Type 0
Text = List ℕ

mutual
  pub data Json : Type 0 where
    null : Json
    boolean : Bool → Json
    integer : ℕ → Json
    number_text : Text → Json
    text : Text → Json
    array : Items → Json
    object : Fields → Json

  pub data Items : Type 0 where
    no_items : Items
    item : Json → Items → Items

  pub data Fields : Type 0 where
    no_fields : Fields
    field : Text → Json → Fields → Fields

-- contains
unfoldable pub contains : List Text → Text → Bool
contains values wanted = any (λ v. same_bytes v wanted) values

unfoldable pub get_field : Text → Fields → Option Json
get_field name no_fields = none
get_field name (field n v rest) =
    let later = get_field name rest in if same_bytes n name then some v else later

-- delete of a map
unfoldable pub remove_field : Text → Fields → Fields
remove_field name no_fields = no_fields
remove_field name (field n v rest) =
    let later = remove_field name rest in if same_bytes n name then later else field n v later

-- An assignment to a map.
unfoldable pub put_field : Text → Json → Fields → Fields
unfolding remove_field
put_field name v fs = field name v (remove_field name fs)

-- The loop over the names with its switch.
unfoldable pub has_only : List Text → Fields → Bool
unfolding contains
has_only known no_fields = true
has_only known (field n v rest) = contains known n && has_only known rest

abbrev pub unmarshal_text : Text → Json → Option Text
unmarshal_text dest null = some dest
unmarshal_text dest (text t) = some t
unmarshal_text dest (boolean b) = none
unmarshal_text dest (integer n) = none
unmarshal_text dest (number_text t) = none
unmarshal_text dest (array xs) = none
unmarshal_text dest (object fs) = none

abbrev pub unmarshal_bool : Bool → Json → Option Bool
unmarshal_bool dest null = some dest
unmarshal_bool dest (boolean b) = some b
unmarshal_bool dest (text t) = none
unmarshal_bool dest (integer n) = none
unmarshal_bool dest (number_text t) = none
unmarshal_bool dest (array xs) = none
unmarshal_bool dest (object fs) = none

-- Into a map that is nil.
abbrev pub unmarshal_object : Json → Option Fields
unmarshal_object null = some no_fields
unmarshal_object (object fs) = some fs
unmarshal_object (boolean b) = none
unmarshal_object (text t) = none
unmarshal_object (integer n) = none
unmarshal_object (number_text t) = none
unmarshal_object (array xs) = none

-- Into a uint32.
abbrev pub unmarshal_u32 : Json → Option ℕ
unmarshal_u32 null = some 0
unmarshal_u32 (integer n) = if ltb n (2 ^ 32) then some n else none
unmarshal_u32 (boolean b) = none
unmarshal_u32 (text t) = none
unmarshal_u32 (number_text t) = none
unmarshal_u32 (array xs) = none
unmarshal_u32 (object fs) = none

unfoldable pub items_of : Items → List Json
items_of no_items = []
items_of (item x xs) = x ∷ items_of xs

-- Into a slice of raw messages that is nil.
abbrev pub unmarshal_items : Json → Option (List Json)
unmarshal_items null = some []
unmarshal_items (array xs) = some (items_of xs)
unmarshal_items (boolean b) = none
unmarshal_items (text t) = none
unmarshal_items (integer n) = none
unmarshal_items (number_text t) = none
unmarshal_items (object fs) = none

abbrev pub first_or_empty : List Text → Text
first_or_empty [] = []
first_or_empty (t ∷ ts) = t

abbrev pub rest_of : List Text → List Text
rest_of [] = []
rest_of (t ∷ ts) = ts

abbrev pub cons_some : Option Text → Option (List Text) → Option (List Text)
cons_some none rest = none
cons_some (some t) none = none
cons_some (some t) (some ts) = some (t ∷ ts)

-- An element that is null keeps the element that the destination has there.
unfoldable pub unmarshal_elements : List Text → Items → Option (List Text)
unmarshal_elements dest no_items = some []
unmarshal_elements dest (item x xs) =
    cons_some (unmarshal_text (first_or_empty dest) x) (unmarshal_elements (rest_of dest) xs)

-- Into a slice of texts: null makes it nil.
abbrev pub unmarshal_texts : List Text → Json → Option (List Text)
unmarshal_texts dest null = some []
unmarshal_texts dest (array xs) = unmarshal_elements dest xs
unmarshal_texts dest (boolean b) = none
unmarshal_texts dest (text t) = none
unmarshal_texts dest (integer n) = none
unmarshal_texts dest (number_text t) = none
unmarshal_texts dest (object fs) = none

abbrev pub bind_option : {A B : Type 0} → Option A → (A → Option B) → Option B
bind_option none f = none
bind_option (some a) f = f a

-- A struct with one field: every name that equals the field's, up to case (`folds`), is read.
module _ {A : Type 0} (folds : Text → Text → Bool) (name : Text) (read : A → Json → Option A) where
  unfoldable pub unmarshal_fields : A → Fields → Option A
  unmarshal_fields dest no_fields = some dest
  unmarshal_fields dest (field n v rest) = elim (folds n name) [
    | true ↦ bind_option (read dest v) (λ d. unmarshal_fields d rest)
    | false ↦ unmarshal_fields dest rest
  ]

  unfoldable pub unmarshal_struct : A → Json → Option A
  unfolding unmarshal_fields
  unmarshal_struct dest null = some dest
  unmarshal_struct dest (object fs) = unmarshal_fields dest fs
  unmarshal_struct dest (boolean b) = none
  unmarshal_struct dest (text t) = none
  unmarshal_struct dest (integer n) = none
  unmarshal_struct dest (number_text t) = none
  unmarshal_struct dest (array xs) = none
