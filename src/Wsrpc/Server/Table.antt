-- ===== src/Wsrpc/Server/Table.antt =====
-- Tables with distinct keys: what inserting a new key and removing a key does to their entries.
use mathlib.Core.List.{Perm}
use mathlib.Core.List.Perm
use go_toolkits.Base.{
  ℕ, ◌≤◌, ◌+◌, ◌≡◌, refl, none, some, List, [], ◌∷◌, ◌++◌, map, arith, ◌==◌, ==_iff, All, by_if,
  Bool-cases, inl, inr,
}
use go_toolkits.Base.Assoc.{Assoc, number_eq, lookup, insert, remove, lookup-insert, lookup-remove}

module _ {V : Type 0} where
  abbrev pub keys : Assoc ℕ V → List ℕ
  keys = map λ e. e.0

  abbrev pub Distinct : Assoc ℕ V → Type 0
  Distinct [] = Unit
  Distinct ((k, v) ∷ m) = (lookup k m ≡ none) × Distinct m

  abbrev pub Below : ℕ → Assoc ℕ V → Type 0
  Below n = All λ e. e.0 ≤ n

  pub lookup_above : (n k : ℕ) (m : Assoc ℕ V) → Below n m → n + 1 ≤ k → lookup k m ≡ none
  unfolding lookup
  lookup_above n k [] b h = refl
  lookup_above n k ((j, v) ∷ m) (a, b) h = ground (arith, lookup_above n k m b h)

  pub insert_new :
      (k : ℕ) (v : V) (m : Assoc ℕ V) → lookup k m ≡ none → insert k v m ≡ m ++ (k, v) ∷ []
  unfolding insert lookup
  insert_new k v [] h = refl
  insert_new k v ((j, w) ∷ m) h = ground (arith, insert_new k v m)

  pub insert-Distinct :
      (k : ℕ) (v : V) (m : Assoc ℕ V) → lookup k m ≡ none → Distinct m → Distinct (insert k v m)
  unfolding insert lookup
  insert-Distinct k v [] h d = (refl, tt)
  insert-Distinct k v ((j, w) ∷ m) h (f, d) =
      ground (arith, lookup-insert k j v m, insert-Distinct k v m)

  Below-mono : (n k : ℕ) (m : Assoc ℕ V) → Below n m → n ≤ k → Below k m
  Below-mono n k [] b h = tt
  Below-mono n k ((j, w) ∷ m) (a, b) h = (omega arith, Below-mono n k m b h)

  pub insert-Below : (n k : ℕ) (v : V) (m : Assoc ℕ V) → Below n m → n ≤ k → Below k (insert k v m)
  unfolding insert
  insert-Below n k v [] b h = (omega arith, tt)
  insert-Below n k v ((j, w) ∷ m) (a, b) h =
      by_if (Below k) (j == k) (λ _. (omega arith, Below-mono n k m b h))
        (λ _. (omega arith, insert-Below n k v m b h))

  pub remove-Distinct : (k : ℕ) (m : Assoc ℕ V) → Distinct m → Distinct (remove k m)
  unfolding remove
  remove-Distinct k [] d = tt
  remove-Distinct k ((j, w) ∷ m) (f, d) = ground (arith, lookup-remove k j m, remove-Distinct k m d)

  pub remove-Below : (n k : ℕ) (m : Assoc ℕ V) → Below n m → Below n (remove k m)
  unfolding remove
  remove-Below n k [] b = tt
  remove-Below n k ((j, w) ∷ m) (a, b) = ground (arith, remove-Below n k m b)

  pub remove_missing : (k : ℕ) (m : Assoc ℕ V) → lookup k m ≡ none → remove k m ≡ m
  unfolding remove lookup
  remove_missing k [] h = refl
  remove_missing k ((j, w) ∷ m) h = ground (arith, remove_missing k m)

  -- Removing a key takes out the one entry that it has.
  pub remove-perm :
      (k : ℕ) (v : V) (m : Assoc ℕ V)
      → Distinct m
      → lookup k m ≡ some v
      → Perm m ((k, v) ∷ remove k m)
  unfolding remove lookup
  remove-perm k v [] d h = cc
  remove-perm k v ((j, w) ∷ m) (f, d) h = elim (Bool-cases (j == k)) [
    | inl hit ↦ rw (hit, remove_missing k m (ground arith)) (Perm.cons' (ground arith) Perm.rfl)
    | inr miss ↦ rw miss (
        Perm.trans (Perm.cons (j, w) (remove-perm k v m d (ground arith)))
          (Perm.swap (k, v) (j, w) _))
  ]

  pub remove-insert :
      (k : ℕ) (v : V) (m : Assoc ℕ V) → lookup k m ≡ none → remove k (insert k v m) ≡ m
  unfolding remove insert lookup
  remove-insert k v [] h = ground (arith, ==_iff k k)
  remove-insert k v ((j, w) ∷ m) h = ground (arith, ==_iff j k, remove-insert k v m)
