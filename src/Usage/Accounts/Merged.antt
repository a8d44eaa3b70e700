-- ===== src/Usage/Accounts/Merged.antt =====
-- Merge takes the larger of two counts, field by field.
use ocfp.Prelude.{
  ◌≡◌, refl, sym, ap, ◌∙◌, subst, Option, none, some, [], ◌∷◌, Bytes, if◌then◌else◌, ◌==◌,
  Bool-cases, inl, inr, eq→≡,
}
use ocfp.Prelude.GoMap
use ocfp.Prelude.GoMap.{Map, get-put}
use ocfp.Jsonx.{read-put, Json, read}
use ocfp.Usage.{Numbers, is_finite}
use ocfp.Usage.Accounts.{number_or_zero, merge_field, merge_fields, merge}

module _ {F : Type 0} (numbers : Numbers F) where
  -- what a later value makes of a field
  abbrev pub merged : Json F → Json F → Json F
  merged old (Json.number n) =
      if is_finite numbers n
      then Json.number (numbers.floats.max (number_or_zero numbers old) n)
      else old
  merged old (Json.object o) = Json.object o
  merged old (Json.array a) = Json.array a
  merged old _ = old

  -- ... and what the later report does, which may lack the field
  abbrev pub merged_with : Json F → Option (Json F) → Json F
  merged_with old none = old
  merged_with old (some v) = merged old v

  read_self : (m : Map (Json F)) (k j : Bytes) → read m j ≡ (if k == j then read m k else read m j)
  read_self m k j = elim (Bool-cases (k == j)) [
    | inl e ↦ let same : k ≡ j = eq→≡ k j e in rw e (ap (read m) (sym same))
    | inr e ↦ rw e refl
  ]

  read-merge_field :
      (m : Map (Json F)) (k j : Bytes) (v : Json F)
      → read (merge_field numbers m k v) j ≡ (if k == j then merged (read m k) v else read m j)
  read-merge_field m k j (Json.number n) = elim (Bool-cases (is_finite numbers n)) [
    | inl e ↦
        rw e
          (read-put k j (Json.number (numbers.floats.max (number_or_zero numbers (read m k)) n)) m)
    | inr e ↦ rw e (read_self m k j)
  ]
  read-merge_field m k j (Json.object o) = read-put k j (Json.object o) m
  read-merge_field m k j (Json.array a) = read-put k j (Json.array a) m
  read-merge_field m k j Json.null = read_self m k j
  read-merge_field m k j (Json.bool b) = read_self m k j
  read-merge_field m k j (Json.string s) = read_self m k j

  -- a Go map has each key once
  abbrev pub HasDistinctKeys : Map (Json F) → Type 0
  HasDistinctKeys [] = Unit
  HasDistinctKeys ((k, v) ∷ m) = (GoMap.get k m ≡ none) × HasDistinctKeys m

  read-merge_fields :
      (next m : Map (Json F)) (j : Bytes)
      → HasDistinctKeys next
      → read (merge_fields numbers m next) j ≡ merged_with (read m j) (GoMap.get j next)
  unfolding merge_fields GoMap.get
  read-merge_fields [] m j h = refl
  read-merge_fields ((k, v) ∷ rest) m j (alone, h) =
      let field = read-merge_field m k j v in
      read-merge_fields rest (merge_field numbers m k v) j h ∙ elim (Bool-cases (k == j)) [
        | inl e ↦
            let same : k ≡ j = eq→≡ k j e in
            let missing : GoMap.get j rest ≡ none =
              subst (λ i. GoMap.get i rest ≡ none) same alone in
            rw (e, missing) (field ∙ rw e (ap (λ i. merged (read m i) v) same))
        | inr e ↦ rw e (ap (λ (x : Json F). merged_with x (GoMap.get j rest)) (field ∙ rw e refl))
      ]

  -- Merging two reports works field by field, the later report having each key once: a finite count becomes the
  -- larger of the two, an earlier value that is no number counting as 0; a details object or array replaces;
  -- any other value, and a field that the later report lacks, leaves the earlier one.
  pub read-merge :
      (prev next : Map (Json F)) (j : Bytes)
      → HasDistinctKeys next
      → (m : Map (Json F)) × (merge numbers (some prev) (some next) ≡ some m)
        × (read m j ≡ merged_with (read prev j) (GoMap.get j next))
  unfolding merge
  read-merge prev next j h = (merge_fields numbers prev next, refl, read-merge_fields next prev j h)
