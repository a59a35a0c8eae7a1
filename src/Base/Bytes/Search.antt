-- ===== src/Base/Bytes/Search.antt =====
-- What HasPrefix, HasSuffix and Contains decide: ways to cut a string in two or three.
use go_toolkits.Base.Tests.{Bool-cases}
use go_toolkits.Base.Lists.{length, drop, length-append}
use Prim.Native.Nat.{ℕ, zero, suc, ◌-◌}
use mathlib.Core.Path.{◌≡◌, refl, ap, ◌∙◌}
use mathlib.Core.Logic.{◌↔◌, inl, inr}
use mathlib.Core.Bool.{true}
use mathlib.Core.List.{[], ◌∷◌, ◌++◌}
use native.Mathlib.Omega.{arith}
use go_toolkits.Base.Bytes.{Bytes, same_iff, same_refl, has_prefix, has_suffix, contains}

abbrev pub StartsWith : Bytes → Bytes → Type 0
StartsWith s t = (v : Bytes) × (s ≡ t ++ v)

abbrev pub EndsWith : Bytes → Bytes → Type 0
EndsWith s t = (u : Bytes) × (s ≡ u ++ t)

abbrev pub Holds : Bytes → Bytes → Type 0
Holds s t = (u : Bytes) × (v : Bytes) × (s ≡ u ++ (t ++ v))

has_prefix→ : (s t : Bytes) → has_prefix s t ≡ true → StartsWith s t
unfolding has_prefix
has_prefix→ s [] h = (s, refl)
has_prefix→ [] (b ∷ t) h = cc
has_prefix→ (a ∷ s) (b ∷ t) h = let (v, e) = has_prefix→ s t (ground arith) in (v, ground arith)

has_prefix-append : (t v : Bytes) → has_prefix (t ++ v) t ≡ true
unfolding has_prefix
has_prefix-append [] [] = refl
has_prefix-append [] (c ∷ v) = refl
has_prefix-append (b ∷ t) v = ground (arith, has_prefix-append t v)

pub has_prefix_iff : (s t : Bytes) → (has_prefix s t ≡ true) ↔ StartsWith s t
has_prefix_iff s t = (has_prefix→ s t, λ (v, e). rw e (has_prefix-append t v))

drop-EndsWith : (n : ℕ) (s : Bytes) → (u : Bytes) × (s ≡ u ++ drop n s)
drop-EndsWith zero s = ([], refl)
drop-EndsWith (suc n) [] = ([], refl)
drop-EndsWith (suc n) (c ∷ s) = let (u, e) = drop-EndsWith n s in (c ∷ u, ap (λ t. c ∷ t) e)

drop-append : (u t : Bytes) → drop (length u) (u ++ t) ≡ t
drop-append [] t = refl
drop-append (c ∷ u) t = drop-append u t

has_suffix→ : (s t : Bytes) → has_suffix s t ≡ true → EndsWith s t
unfolding has_suffix
has_suffix→ s t h =
    let (u, e) = drop-EndsWith (length s - length t) s in
    (u, e ∙ ap (λ r. u ++ r) ((same_iff _ t).0 (ground arith)))

has_suffix-append : (u t : Bytes) → has_suffix (u ++ t) t ≡ true
unfolding has_suffix
has_suffix-append u t =
    let n : length (u ++ t) - length t ≡ length u = omega (arith, length-append u t) in
    rw (n, drop-append u t, same_refl t) (ground (arith, length-append u t))

pub has_suffix_iff : (s t : Bytes) → (has_suffix s t ≡ true) ↔ EndsWith s t
has_suffix_iff s t = (has_suffix→ s t, λ (u, e). rw e (has_suffix-append u t))

contains→ : (s t : Bytes) → contains s t ≡ true → Holds s t
unfolding contains
contains→ [] t h = let (v, e) = has_prefix→ [] t h in ([], v, e)
contains→ (a ∷ s) t h = elim (Bool-cases (has_prefix (a ∷ s) t)) [
  | inl here ↦ let (v, e) = has_prefix→ (a ∷ s) t here in ([], v, e)
  | inr later ↦ let (u, v, e) = contains→ s t (ground arith) in (a ∷ u, v, ap (λ r. a ∷ r) e)
]

contains-of_prefix : (s t : Bytes) → has_prefix s t ≡ true → contains s t ≡ true
unfolding contains
contains-of_prefix [] t h = h
contains-of_prefix (a ∷ s) t h = ground arith

contains-append : (u t v : Bytes) → contains (u ++ (t ++ v)) t ≡ true
unfolding contains
contains-append [] t v = contains-of_prefix (t ++ v) t (has_prefix-append t v)
contains-append (c ∷ u) t v = ground (arith, contains-append u t v)

pub contains_iff : (s t : Bytes) → (contains s t ≡ true) ↔ Holds s t
contains_iff s t = (contains→ s t, λ (u, v, e). rw e (contains-append u t v))
