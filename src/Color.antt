-- ===== src/Color.antt =====
-- utils/color.go: colours as numbers, as texts "#RRGGBB" and by name. A uint is below 2 ^ 64 and a
-- uint32 below 2 ^ 32; texts are ASCII, where strings.ToUpper works byte by byte.
mod Table
pub mod Hex
pub mod Names
pub mod Text
mod Tests
use go_toolkits.Base.{
  ℕ, zero, suc, ◌+◌, ◌-◌, ◌*◌, ◌/◌, ◌%◌, ◌^◌, ◌≡◌, Bool, true, false, ◌&&◌, ◌||◌, Option, none,
  some, List, [], ◌∷◌, ◌++◌, map, ◌==◌, leb, ltb, if◌then◌else◌, length, drop,
}
use Prim.Native.Nat.{max}
use go_toolkits.Base.Bytes.{Bytes, codes, same, is_empty, has_prefix, split}
use go_toolkits.Base.Assoc.{Assoc, bytes_eq, lookup, insert}
use Table.{color_names}

-- ConvMtColor: the bytes of a uint32 at 0x000000FF, 0x0000FF00, 0x00FF0000 and 0xFF000000.
pub conv_mt_color : ℕ → ℕ
conv_mt_color color =
    let r = color % 2 ^ 8 in
    let g = color / 2 ^ 8 % 2 ^ 8 * 2 ^ 8 in
    let b = color / 2 ^ 16 % 2 ^ 8 * 2 ^ 16 in
    let a = color / 2 ^ 24 % 2 ^ 8 * 2 ^ 24 in (a + r * 2 ^ 16 + g + b / 2 ^ 16) % 2 ^ 32

-- The digit of %X.
pub hex_digit : ℕ → ℕ
hex_digit d = if ltb d 10 then b'0' + d else b'A' + (d - 10)

-- The last k hexadecimal digits of n.
pub hex_fixed : ℕ → ℕ → Bytes
hex_fixed zero n = []
hex_fixed (suc k) n = hex_fixed k (n / 16) ++ hex_digit (n % 16) ∷ []

-- How many digits n has; 16 rounds do for a uint.
pub hex_count : ℕ → ℕ → ℕ
hex_count zero n = 0
hex_count (suc f) n = if n == 0 then 0 else suc (hex_count f (n / 16))

-- fmt.Sprintf("%0wX", n)
pub format_hex : ℕ → ℕ → Bytes
format_hex w n = hex_fixed (max w (hex_count 16 n)) n

-- toRGB: a is color & 0xFF000000.
pub to_rgb : ℕ → Bytes
to_rgb color =
    if color / 2 ^ 24 % 2 ^ 8 == 0 then b'#' ∷ format_hex 6 color else b'#' ∷ format_hex 8 color

upper_byte : ℕ → ℕ
upper_byte c = if leb b'a' c && leb c b'z' then c - 32 else c

-- strings.ToUpper
pub to_upper : Bytes → Bytes
to_upper = map upper_byte

-- strings.Replace(value, " ", "", -1)
pub drop_spaces : Bytes → Bytes
drop_spaces [] = []
drop_spaces (c ∷ s) = if c == b' ' then drop_spaces s else c ∷ drop_spaces s

-- nameRgbMap and rgbNameMap after init. A range over a Go map has no fixed order; this is that of
-- the source.
pub name_rgb : List (Bytes × Bytes) → Assoc Bytes Bytes → Assoc Bytes Bytes
name_rgb [] m = m
name_rgb ((name, rgb) ∷ names) m = name_rgb names (insert (to_upper name) rgb m)

pub rgb_name : List (Bytes × Bytes) → Assoc Bytes Bytes → Assoc Bytes Bytes
rgb_name [] m = m
rgb_name ((name, rgb) ∷ names) m = rgb_name names (insert rgb (to_upper name) m)

-- m[k] of a map to strings: "" where k is missing.
pub value_at : Bytes → Assoc Bytes Bytes → Bytes
value_at k m = elim (lookup k m) [ none ↦ [] | some v ↦ v ]

-- ToColorName
pub to_color_name : ℕ → Bytes
to_color_name color = value_at (to_rgb color) (rgb_name color_names [])

-- nameRgbMap[exp], or exp where that is "".
pub resolve : Bytes → Bytes
resolve exp = let rgb = value_at exp (name_rgb color_names []) in if is_empty rgb then exp else rgb

-- The loop of ColorEq.
pub color_eq_any : ℕ → List Bytes → Bool
color_eq_any color [] = false
color_eq_any color (exp ∷ exps) =
    if is_empty exp
    then color_eq_any color exps
    else if same (resolve exp) (to_rgb color)
    then true
    else color_eq_any color exps

-- ColorEq
pub color_eq : ℕ → Bytes → Bool
color_eq color value = color_eq_any color (split b',' (to_upper (drop_spaces value)))

-- strings.TrimPrefix
pub trim_prefix : Bytes → Bytes → Bytes
trim_prefix s p = if has_prefix s p then drop (length p) s else s

pub hex_value : ℕ → Option ℕ
hex_value c =
    if leb b'0' c && leb c b'9'
    then some (c - b'0')
    else if leb b'a' c && leb c b'f'
    then some (c - b'a' + 10)
    else if leb b'A' c && leb c b'F'
    then some (c - b'A' + 10)
    else none

pub parse_digits : ℕ → Bytes → Option ℕ
parse_digits n [] = some n
parse_digits n (c ∷ s) = elim (hex_value c) [ none ↦ none | some d ↦ parse_digits (n * 16 + d) s ]

-- `negsuc n` is -(n + 1).
pub data ℤ : Type 0 where
  pos negsuc : ℕ → ℤ

pub parse_magnitude : Bytes → Option ℕ
parse_magnitude [] = none
parse_magnitude (c ∷ s) = parse_digits 0 (c ∷ s)

-- The value of an int64 with this magnitude below zero.
negate : ℕ → Option ℤ
negate zero = some (pos 0)
negate (suc n) = if ltb n (2 ^ 63) then some (negsuc n) else none

in_range : ℕ → Option ℤ
in_range n = if ltb n (2 ^ 63) then some (pos n) else none

-- strconv.ParseInt(s, 16, 64); none is its error.
pub parse_int : Bytes → Option ℤ
parse_int [] = none
parse_int (c ∷ s) =
    if c == b'-'
    then elim (parse_magnitude s) [ none ↦ none | some n ↦ negate n ]
    else if c == b'+'
    then elim (parse_magnitude s) [ none ↦ none | some n ↦ in_range n ]
    else elim (parse_magnitude (c ∷ s)) [ none ↦ none | some n ↦ in_range n ]

-- ToColor64; none is (0, false).
pub to_color64 : Bytes → Option ℤ
to_color64 value =
    let rgb = resolve (to_upper (drop_spaces value)) in
    parse_int (trim_prefix (trim_prefix rgb (codes "0x")) (codes "#"))
