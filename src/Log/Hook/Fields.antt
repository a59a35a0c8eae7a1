-- ===== src/Log/Hook/Fields.antt =====
-- log/hook/core.go: which fields an entry is written with.
use go_toolkits.Base.{
  ◌≡◌, refl, ◌∙◌, ap, Bool, true, false, ◌||◌, Option, none, some, List, [], ◌∷◌, if◌then◌else◌,
}
use go_toolkits.Base.Bytes.{Bytes, same}
use go_toolkits.Base.Assoc.{Assoc, bytes_eq, lookup, remove, lookup-insert, lookup-remove}
use go_toolkits.Log.Hook.{
  Field, Heap, BaseCore, read, put_fields, slice_field_to_map, remove_keys, string_fields,
  filter_fields, write_fields,
}

abbrev pub among : Bytes → List Bytes → Bool
among k [] = false
among k (j ∷ js) = same j k || among k js

if-if :
    {A : Type 0} (a b : Bool) (x y : A)
    → (if a then x else (if b then x else y)) ≡ (if b || a then x else y)
if-if true true x y = refl
if-if true false x y = refl
if-if false true x y = refl
if-if false false x y = refl

module _ {V : Type 0} where
  -- The last field with a key, and o if there is none.
  abbrev pub last_field : Bytes → List (Field V) → Option (Field V) → Option (Field V)
  last_field k [] o = o
  last_field k (x ∷ xs) o = last_field k xs (if same x.key k then some x else o)

  lookup-put_fields :
      (k : Bytes) (xs : List (Field V)) (fs : Assoc Bytes (Field V))
      → lookup k (put_fields xs fs) ≡ last_field k xs (lookup k fs)
  unfolding put_fields
  lookup-put_fields k [] fs = refl
  lookup-put_fields k (x ∷ xs) fs =
      lookup-put_fields k xs _ ∙ ap (last_field k xs) (lookup-insert x.key k x fs)

  lookup-remove_keys :
      (k : Bytes) (js : List Bytes) (fs : Assoc Bytes (Field V))
      → lookup k (remove_keys js fs) ≡ (if among k js then none else lookup k fs)
  unfolding remove_keys
  lookup-remove_keys k [] fs = refl
  lookup-remove_keys k (j ∷ js) fs =
      lookup-remove_keys k js (remove j fs)
      ∙ ap (λ o. if among k js then none else o) (lookup-remove j k fs)
      ∙ if-if (among k js) (same j k) none (lookup k fs)

  -- Write hands on no field whose key is filtered. Of the others it hands on the configuration's field
  -- with the key if there is one, else the last that was added by With, else the last of the call.
  pub lookup-write_fields :
      (string : Bytes → V) (c : BaseCore) (heap : Heap V) (xs : List (Field V)) (k : Bytes)
      → lookup k (write_fields string c heap xs) ≡ (
          if among k c.filters
          then none
          else last_field k
              (string_fields string c.fields)
              (last_field k (read heap c.withfields) (last_field k xs none)))
  unfolding write_fields filter_fields slice_field_to_map lookup
  lookup-write_fields string c heap xs k =
      lookup-remove_keys k c.filters _
      ∙ ap (λ o. if among k c.filters then none else o)
          (lookup-put_fields k (string_fields string c.fields) _
            ∙ ap (last_field k (string_fields string c.fields)) (
                lookup-put_fields k (read heap c.withfields) _
                ∙ ap (last_field k (read heap c.withfields)) (lookup-put_fields k xs [])))
