-- ===== src/Mask/Old.antt =====
-- Any of utils/utils.go, the deprecated matcher: it tests for stars at the ends of a mask only.
use mathlib.Core.List.{tail}
use go_toolkits.Base.{
  ◌≡◌, refl, ap, subst, ◌∙◌, ◌≢◌, ◌↔◌, inl, inr, true, false, [], ◌∷◌, ◌++◌, append-nil,
  append_assoc, arith, Bool-cases,
}
use go_toolkits.Base.Bytes.{Bytes, same, same_iff, has_prefix, has_suffix, contains_byte}
use go_toolkits.Base.Bytes.Search.{has_suffix_iff}
use go_toolkits.Mask.Glob.{star, Glob}
use go_toolkits.Mask.Single.{Plain, same-Plain, prefix_iff, suffix_iff, infix_iff}
use go_toolkits.Mask.{star_text, strip, any_test}

strip-Plain : (t s : Bytes) → Plain t → strip (t ++ s) ≡ t ++ strip s
unfolding strip contains_byte
strip-Plain [] s n = refl
strip-Plain (c ∷ t) s n = ground (arith, strip-Plain t s)

not-leads : (t : Bytes) → Plain t → t ≢ [] → (s : Bytes) → has_prefix (t ++ s) star_text ≡ false
unfolding contains_byte has_prefix
not-leads [] n e s = absurd (e refl)
not-leads (c ∷ t) n e s = ground arith

append-nil_right : (s t : Bytes) → s ++ t ≡ [] → t ≡ []
append-nil_right [] t q = q
append-nil_right (c ∷ s) t q = cc

not-lead : (t : Bytes) → Plain t → has_prefix t star_text ≡ false
unfolding contains_byte has_prefix
not-lead [] n = refl
not-lead (c ∷ t) n = ground arith

not-nil : (t : Bytes) → t ≢ [] → same t [] ≡ false
unfolding same
not-nil [] e = absurd (e refl)
not-nil (c ∷ t) e = refl

Plain-last : (u s : Bytes) → ¬ Plain (u ++ star ∷ s)
unfolding contains_byte
Plain-last [] s n = ground arith
Plain-last (c ∷ u) s n = Plain-last u s (ground arith)

not-ends : (s t u : Bytes) → Plain t → t ≢ [] → s ++ t ≢ u ++ star_text
not-ends [] t u n e q = Plain-last u [] (subst Plain q n)
not-ends (c ∷ s) t [] n e q = e (append-nil_right s t (ap tail q))
not-ends (c ∷ s) t (b ∷ u) n e q = not-ends s t u n e (ap tail q)

not-closes : (s t : Bytes) → Plain t → t ≢ [] → has_suffix (s ++ t) star_text ≡ false
not-closes s t n e = elim (Bool-cases (has_suffix (s ++ t) star_text)) [
  | inl h ↦ let (u, q) = (has_suffix_iff (s ++ t) star_text).0 h in absurd (not-ends s t u n e q)
  | inr h ↦ h
]

closes-append : (s : Bytes) → has_suffix (s ++ star_text) star_text ≡ true
closes-append s = (has_suffix_iff (s ++ star_text) star_text).1 (s, refl)

not-star : (t : Bytes) → Plain t → same t star_text ≡ false
unfolding same contains_byte
not-star [] n = refl
not-star (c ∷ t) n = ground arith

strip_self : (t : Bytes) → Plain t → strip t ≡ t
unfolding strip contains_byte
strip_self [] n = refl
strip_self (c ∷ t) n = ground (arith, strip_self t (ground arith))

inner : (s t : Bytes) → Plain s → Plain t → strip (s ++ star ∷ t) ≡ s ++ t
unfolding strip
inner s t m n = strip-Plain s (star ∷ t) m ∙ ap (λ r. s ++ r) (strip_self t n)

-- Any's test of one mask, whose bytes between the stars at its ends are t.
abbrev pub Agrees : Bytes → Bytes → Type 0
Agrees value mask = (any_test value mask ≡ true) ↔ Glob mask value

any_test-Plain : (value t : Bytes) → Plain t → t ≢ [] → Agrees value t
unfolding any_test
any_test-Plain value t n e =
    rw (not-star t n, not-lead t n, not-closes [] t n e, strip_self t n) (same-Plain value t n)

any_test-suffix : (value t : Bytes) → Plain t → t ≢ [] → Agrees value (star ∷ t)
unfolding any_test same has_prefix strip
any_test-suffix value t n e =
    rw (not-nil t e, not-closes star_text t n e, strip_self t n) (suffix_iff value t n)

not-same : (t s : Bytes) → Plain t → t ≢ [] → same (t ++ s) star_text ≡ false
unfolding same contains_byte
not-same [] s n e = absurd (e refl)
not-same (c ∷ t) s n e = ground arith

strip-closed : (t : Bytes) → Plain t → strip (t ++ star_text) ≡ t
unfolding strip
strip-closed t n = strip-Plain t star_text n ∙ append-nil t

any_test-prefix : (value t : Bytes) → Plain t → t ≢ [] → Agrees value (t ++ star_text)
unfolding any_test
any_test-prefix value t n e =
    rw (not-same t star_text n e, not-leads t n e star_text, closes-append t, strip-closed t n)
      (prefix_iff value t n)

not-nil-append : (t : Bytes) → same (t ++ star_text) [] ≡ false
unfolding same
not-nil-append [] = refl
not-nil-append (c ∷ t) = refl

any_test-infix : (value t : Bytes) → Plain t → Agrees value (star ∷ t ++ star_text)
unfolding any_test same has_prefix strip
any_test-infix value t n =
    rw (not-nil-append t, closes-append (star ∷ t), strip-closed t n) (infix_iff value t n)

-- On a mask whose stars stand at its ends, around bytes without one, Any's test of one mask agrees
-- with what the mask means.
pub any_test_iff :
    (value t : Bytes)
    → Plain t
    → t ≢ []
    → Agrees value t
      × Agrees value (star ∷ t)
      × Agrees value (t ++ star_text)
      × Agrees value (star ∷ t ++ star_text)
any_test_iff value t n e = (
  any_test-Plain value t n e,
  any_test-suffix value t n e,
  any_test-prefix value t n e,
  any_test-infix value t n,
)

-- A star between other bytes is taken out, and no wildcard: Any compares with the bytes around it.
pub any_test_inner :
    (value s t : Bytes)
    → Plain s
    → Plain t
    → s ≢ []
    → t ≢ []
    → (any_test value (s ++ star ∷ t) ≡ true) ↔ (value ≡ s ++ t)
unfolding any_test
any_test_inner value s t m n d e =
    let closed : has_suffix (s ++ (star ∷ t)) star_text ≡ false =
      subst (λ r. has_suffix r star_text ≡ false) (append_assoc s star_text t)
        (not-closes (s ++ star_text) t n e) in
    rw (not-same s (star ∷ t) m d, not-leads s m d (star ∷ t), closed, inner s t m n)
      (same_iff value (s ++ t))
