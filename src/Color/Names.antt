-- ===== src/Color/Names.antt =====
-- utils/color.go: texts that are no colour names pass through the lookup unchanged.
use go_toolkits.Base.{◌≡◌, refl, Bool, true, not, ◌&&◌, none, List, [], ◌∷◌, arith}
use go_toolkits.Base.Bytes.{Bytes, same}
use go_toolkits.Base.Assoc.{Assoc, bytes_eq, lookup, insert, lookup-insert}
use go_toolkits.Color.Table.{color_names}
use go_toolkits.Color.{to_upper, upper_byte, name_rgb, value_at, resolve}

lookup-nil : (k : Bytes) → lookup {V = Bytes} k [] ≡ none
unfolding lookup
lookup-nil k = refl

misses : Bytes → List (Bytes × Bytes) → Bool
misses k [] = true
misses k ((name, rgb) ∷ names) = not (same (to_upper name) k) && misses k names

lookup-name_rgb :
    (k : Bytes) (names : List (Bytes × Bytes)) (m : Assoc Bytes Bytes)
    → misses k names ≡ true
    → lookup k m ≡ none
    → lookup k (name_rgb names m) ≡ none
unfolding misses name_rgb
lookup-name_rgb k [] m h e = e
lookup-name_rgb k ((name, rgb) ∷ names) m h e =
    lookup-name_rgb k names (insert (to_upper name) rgb m) (ground arith)
      (ground (arith, lookup-insert (to_upper name) k rgb m))

value_at-miss : (k : Bytes) (m : Assoc Bytes Bytes) → lookup k m ≡ none → value_at k m ≡ []
unfolding value_at
value_at-miss k m e = ground arith

resolve-miss : (k : Bytes) → misses k color_names ≡ true → resolve k ≡ k
unfolding resolve
resolve-miss k h = ground (arith, value_at-miss k (name_rgb color_names []) found)
  where
    found : lookup k (name_rgb color_names []) ≡ none
    found = lookup-name_rgb k color_names [] h (lookup-nil k)

-- No name in the table begins with '#' or '0'.
pub resolve-hash : (s : Bytes) → resolve (b'#' ∷ s) ≡ b'#' ∷ s
unfolding misses to_upper upper_byte color_names same
resolve-hash s = resolve-miss (b'#' ∷ s) refl

pub resolve-zero : (s : Bytes) → resolve (b'0' ∷ s) ≡ b'0' ∷ s
unfolding misses to_upper upper_byte color_names same
resolve-zero s = resolve-miss (b'0' ∷ s) refl
