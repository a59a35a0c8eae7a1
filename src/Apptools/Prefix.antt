-- ===== src/Apptools/Prefix.antt =====
-- apptools/metric/metric_warp.go: withPrefix puts the prefix in front once.
use go_toolkits.Base.{◌≡◌, sym, ◌++◌, [], ◌∷◌, true, Bool-cases, inl, inr, append_assoc, arith}
use go_toolkits.Base.Bytes.{Bytes, has_prefix}
use go_toolkits.Base.Bytes.Search.{has_prefix_iff}
use go_toolkits.Apptools.{with_prefix}

kept : (p name : Bytes) → has_prefix name (p ++ b'_' ∷ []) ≡ true → with_prefix p name ≡ name
unfolding with_prefix
kept p name h = ground arith

prefixed : (p name : Bytes) → has_prefix (p ++ b'_' ∷ name) (p ++ b'_' ∷ []) ≡ true
prefixed p name = (has_prefix_iff _ _).1 (name, sym (append_assoc p (b'_' ∷ []) name))

-- To put the prefix in front of a name that withPrefix gave leaves it as it is.
pub with_prefix_twice : (p name : Bytes) → with_prefix p (with_prefix p name) ≡ with_prefix p name
unfolding with_prefix
with_prefix_twice p name = elim (Bool-cases (has_prefix name (p ++ b'_' ∷ []))) [
  | inl h ↦ ground arith
  | inr h ↦ ground (arith, prefixed p name)
]
