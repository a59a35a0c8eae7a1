-- ===== src/Color/Text.antt =====
-- utils/color.go: colours as texts, read back and compared.
use native.Mathlib.Nat.{le_trans}
use go_toolkits.Base.{
  ℕ, ◌/◌, ◌%◌, ◌^◌, ◌≤◌, ◌<◌, ◌≡◌, refl, sym, ◌∙◌, ap, true, false, Option, none, some, [], ◌∷◌,
  ◌++◌, arith, ◌==◌, All, length, Bool-cases, ◌⊎◌, inl, inr, append-nil, append_assoc,
}
use go_toolkits.Base.Bytes.{Bytes, codes, same_refl, has_prefix, split, split_from}
use go_toolkits.Color.Hex.{IsDigit, All-format_hex, length-format_hex, parse_digits-format_hex}
use go_toolkits.Color.Names.{resolve-hash, resolve-zero}
use go_toolkits.Color.{
  hex_digit, format_hex, to_rgb, to_upper, upper_byte, drop_spaces, resolve, color_eq_any, color_eq,
  trim_prefix, hex_value, parse_digits, parse_magnitude, in_range, parse_int, ℤ, pos, to_color64,
}

upper_byte-hex_digit : (d : ℕ) → d < 16 → upper_byte (hex_digit d) ≡ hex_digit d
unfolding upper_byte hex_digit
upper_byte-hex_digit d h = ground arith

to_upper-digits : (s : Bytes) → All IsDigit s → to_upper s ≡ s
unfolding to_upper
to_upper-digits [] a = refl
to_upper-digits (c ∷ s) ((d, h, e), a) =
    ground (arith, upper_byte-hex_digit d h, to_upper-digits s a)

hex_digit_plain : (d : ℕ) → d < 16 → (hex_digit d == b' ') ≡ false
unfolding hex_digit
hex_digit_plain d h = ground arith

drop_spaces-digits : (s : Bytes) → All IsDigit s → drop_spaces s ≡ s
unfolding drop_spaces
drop_spaces-digits [] a = refl
drop_spaces-digits (c ∷ s) ((d, h, e), a) =
    ground (arith, hex_digit_plain d h, drop_spaces-digits s a)

-- The text of a colour: '#' and its digits, six of them or more.
record Printed (color : ℕ) : Type 0 where
  digits : Bytes
  text : to_rgb color ≡ b'#' ∷ digits
  are_digits : All IsDigit digits
  many : 6 ≤ length digits
  reads : parse_digits 0 digits ≡ some color

text_with_digits :
    (w color : ℕ)
    → 6 ≤ w
    → color < 2 ^ 64
    → to_rgb color ≡ b'#' ∷ format_hex w color
    → Printed color
text_with_digits w color m h e = record {
  digits = format_hex w color;
  text = e;
  are_digits = All-format_hex w color;
  many = le_trans m (length-format_hex w color);
  reads = parse_digits-format_hex w color h;
}

printed : (color : ℕ) → color < 2 ^ 64 → Printed color
unfolding to_rgb
printed color h = elim (Bool-cases (color / 2 ^ 24 % 2 ^ 8 == 0)) [
  | inl low ↦ text_with_digits 6 color (omega arith) h (rw low)
  | inr high ↦ text_with_digits 8 color (omega arith) h (rw high)
]

digit_no_sign : (d : ℕ) → d < 16 → (b'+' < hex_digit d) × (b'-' < hex_digit d)
unfolding hex_digit
digit_no_sign d h = (ground arith, ground arith)

parse_int-digits :
    (s : Bytes) (n : ℕ)
    → All IsDigit s
    → 6 ≤ length s
    → parse_digits 0 s ≡ some n
    → n < 2 ^ 63
    → parse_int s ≡ some (pos n)
unfolding parse_int parse_magnitude in_range
parse_int-digits [] n a l e h = absurd (omega arith)
parse_int-digits (c ∷ s) n ((d, k, q), a) l e h =
    ground (arith, (digit_no_sign d k).0, (digit_no_sign d k).1)

clean-digits : (s : Bytes) → All IsDigit s → to_upper (drop_spaces (b'#' ∷ s)) ≡ b'#' ∷ s
unfolding drop_spaces to_upper upper_byte
clean-digits s a = ap (λ t. b'#' ∷ t) (ap to_upper (drop_spaces-digits s a) ∙ to_upper-digits s a)

-- What ToColor64 does once the name is looked up.
abbrev parse_color : Bytes → Option ℤ
parse_color rgb = parse_int (trim_prefix (trim_prefix rgb (codes "0x")) (codes "#"))

to_color64-digits : (s : Bytes) → All IsDigit s → to_color64 (b'#' ∷ s) ≡ parse_int s
unfolding to_color64 trim_prefix has_prefix
to_color64-digits s a = ap parse_color (ap resolve (clean-digits s a) ∙ resolve-hash s)

-- The text that toRGB prints is read back by ToColor64 as the same number, for every colour that
-- an int64 holds.
pub to_color64-to_rgb : (color : ℕ) → color < 2 ^ 63 → to_color64 (to_rgb color) ≡ some (pos color)
to_color64-to_rgb color h =
    let p = printed color (omega arith) in
    ap to_color64 p.text
    ∙ to_color64-digits p.digits p.are_digits
    ∙ parse_int-digits p.digits color p.are_digits p.many p.reads h

capital_x :
    (x : ℕ) (s : Bytes)
    → (x ≡ b'x') ⊎ (x ≡ b'X')
    → to_upper (drop_spaces (b'0' ∷ x ∷ s)) ≡ b'0' ∷ b'X' ∷ to_upper (drop_spaces s)
unfolding drop_spaces to_upper upper_byte
capital_x x s (inl e) = rw e
capital_x x s (inr e) = rw e

parse_color-capital_x : (s : Bytes) → parse_color (b'0' ∷ b'X' ∷ s) ≡ none
unfolding trim_prefix has_prefix parse_int parse_magnitude parse_digits hex_value
parse_color-capital_x s = refl

-- A text that begins with "0x" or "0X" is refused: the text is in capitals when the prefix "0x" is
-- looked for, so that it is never taken off.
pub to_color64_prefix :
    (x : ℕ) (s : Bytes) → (x ≡ b'x') ⊎ (x ≡ b'X') → to_color64 (b'0' ∷ x ∷ s) ≡ none
unfolding to_color64
to_color64_prefix x s h =
    ap parse_color (ap resolve (capital_x x s h) ∙ resolve-zero _) ∙ parse_color-capital_x _

digit_no_comma : (d : ℕ) → d < 16 → (hex_digit d == b',') ≡ false
unfolding hex_digit
digit_no_comma d h = ground arith

split-digits : (piece s : Bytes) → All IsDigit s → split_from b',' piece s ≡ (piece ++ s) ∷ []
unfolding split_from
split-digits piece [] a = ap (λ t. t ∷ []) (sym (append-nil piece))
split-digits piece (c ∷ s) ((d, h, e), a) =
    let plain : (c == b',') ≡ false = ap (λ x. x == b',') e ∙ digit_no_comma d h in
    rw (plain, split_from)
      (split-digits (piece ++ c ∷ []) s a ∙ ap (λ t. t ∷ []) (append_assoc piece (c ∷ []) s))

color_eq-one :
    (color : ℕ) (s : Bytes) → to_rgb color ≡ b'#' ∷ s → color_eq_any color ((b'#' ∷ s) ∷ []) ≡ true
unfolding color_eq_any
color_eq-one color s e = rw (resolve-hash s, e, same_refl (b'#' ∷ s))

-- ColorEq holds of every colour and the text that toRGB prints of it.
pub color_eq-to_rgb : (color : ℕ) → color < 2 ^ 64 → color_eq color (to_rgb color) ≡ true
unfolding color_eq split split_from
color_eq-to_rgb color h =
    let p = printed color h in
    ap (color_eq color) p.text
    ∙ ap (λ t. color_eq_any color (split b',' t)) (clean-digits p.digits p.are_digits)
    ∙ ap (color_eq_any color) (split-digits (b'#' ∷ []) p.digits p.are_digits)
    ∙ color_eq-one color p.digits p.text
