-- ===== src/Jsonx.antt =====
-- internal/jsonx/jsonx.go: decoded JSON. A value of Go's `any` that encoding/json decodes into is one of six
-- shapes; F stands for float64, whose operations are in Floats. A nil map or slice is `none`.
use ocfp.Prelude.{
  ℕ, ◌≡◌, refl, ap, ◌∙◌, Bool, true, false, not, Option, none, some, List, [], ◌∷◌, Bytes, is_some,
  ◌==◌, if◌then◌else◌, Bool-cases, inl, inr, eq_refl,
}
use ocfp.Prelude.GoMap
use ocfp.Prelude.GoMap.{Map, get-put}
use ocfp.Config.Validate.{is_empty}

mutual
  pub data Json (F : Type 0) : Type 0 where
    null : Json F
    bool : Bool → Json F
    number : F → Json F
    string : Bytes → Json F
    array : Items F → Json F
    object : Fields F → Json F

  pub data Items (F : Type 0) : Type 0 where
    nil : Items F
    item : Json F → Items F → Items F

  pub data Fields (F : Type 0) : Type 0 where
    end : Fields F
    field : Bytes → Json F → Fields F → Fields F

-- what the source does with a float64
pub record Floats (F : Type 0) : Type 0 where
  pub zero : F
  pub one : F
  pub of_nat : ℕ → F
  pub is_zero : F → Bool
  pub is_nan : F → Bool
  pub is_inf : F → Bool
  pub lt : F → F → Bool
  pub le : F → F → Bool
  pub add : F → F → F
  pub mul : F → F → F
  pub max : F → F → F
  pub floor : F → F

module _ {F : Type 0} where
  abbrev pub items : Items F → List (Json F)
  items Items.nil = []
  items (Items.item v vs) = v ∷ items vs

  abbrev pub items_of : List (Json F) → Items F
  items_of [] = Items.nil
  items_of (v ∷ vs) = Items.item v (items_of vs)

  abbrev pub fields : Fields F → Map (Json F)
  fields Fields.end = []
  fields (Fields.field k v m) = (k, v) ∷ fields m

  abbrev pub fields_of : Map (Json F) → Fields F
  fields_of [] = Fields.end
  fields_of ((k, v) ∷ m) = Fields.field k v (fields_of m)

  pub fields-fields_of : (m : Map (Json F)) → fields (fields_of m) ≡ m
  fields-fields_of [] = refl
  fields-fields_of ((k, v) ∷ m) = ap (λ (r : Map (Json F)). (k, v) ∷ r) (fields-fields_of m)

  -- a map as a value
  abbrev pub obj : Map (Json F) → Json F
  obj m = Json.object (fields_of m)

  abbrev pub arr : List (Json F) → Json F
  arr vs = Json.array (items_of vs)

  unfoldable pub as_obj : Json F → Option (Map (Json F))
  as_obj (Json.object m) = some (fields m)
  as_obj _ = none

  unfoldable pub as_arr : Json F → Option (List (Json F))
  as_arr (Json.array vs) = some (items vs)
  as_arr _ = none

  unfoldable pub as_str : Json F → Bytes
  as_str (Json.string s) = s
  as_str _ = []

  unfoldable pub truthy : Floats F → Json F → Bool
  truthy o Json.null = false
  truthy o (Json.bool b) = b
  truthy o (Json.number n) = not (o.is_zero n)
  truthy o (Json.string s) = not (is_empty s)
  truthy o (Json.array _) = true
  truthy o (Json.object _) = true

  abbrev pub or_null : Option (Json F) → Json F
  or_null none = Json.null
  or_null (some v) = v

  -- m[k] of a map that may be nil: a missing key reads as nil
  unfoldable pub read : Map (Json F) → Bytes → Json F
  read m k = or_null (GoMap.get k m)

  abbrev pub read_nil : Option (Map (Json F)) → Bytes → Json F
  read_nil none k = Json.null
  read_nil (some m) k = read m k

  unfoldable pub get : Json F → Bytes → Json F
  get v k = read_nil (as_obj v) k

  abbrev pub has_key : Map (Json F) → Bytes → Bool
  has_key m k = is_some (GoMap.get k m)

  pub read-put :
      (k j : Bytes) (v : Json F) (m : Map (Json F))
      → read (GoMap.put k v m) j ≡ (if k == j then v else read m j)
  unfolding read
  read-put k j v m = elim (Bool-cases (k == j)) [
    | inl e ↦ ap or_null (get-put k j v m) ∙ rw e refl
    | inr e ↦ ap or_null (get-put k j v m) ∙ rw e refl
  ]

  pub read-put_self : (k : Bytes) (v : Json F) (m : Map (Json F)) → read (GoMap.put k v m) k ≡ v
  read-put_self k v m = read-put k k v m ∙ ap (λ (b : Bool). if b then v else read m k) (eq_refl k)
