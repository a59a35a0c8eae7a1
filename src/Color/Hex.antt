-- ===== src/Color/Hex.antt =====
-- utils/color.go: the hexadecimal text of a number, read back.
use go_toolkits.Base.{
  ℕ, zero, suc, ◌+◌, ◌*◌, ◌/◌, ◌%◌, ◌^◌, ◌≤◌, ◌<◌, ◌≡◌, refl, ◌∙◌, ap, some, [], ◌∷◌, ◌++◌, arith,
  ◌==◌, All, All-append, by_if, Option-cases, inl, inr, length, length-append,
}
use Prim.Native.Nat.{max}
use native.Mathlib.Nat.{pow-suc, pow-le-pow_right, lt_of_lt_of_le}
use go_toolkits.Base.Bytes.{Bytes}
use go_toolkits.Color.{
  conv_mt_color, hex_digit, hex_fixed, hex_count, format_hex, hex_value, parse_digits,
}

-- ConvMtColor swaps the bytes of red and blue, so it is its own inverse on every uint32.
pub conv_mt_color_twice : (c : ℕ) → c < 2 ^ 32 → conv_mt_color (conv_mt_color c) ≡ c
unfolding conv_mt_color
conv_mt_color_twice c h = omega arith

hex_value-hex_digit : (d : ℕ) → d < 16 → hex_value (hex_digit d) ≡ some d
unfolding hex_value hex_digit
hex_value-hex_digit d h = ground arith

parse_digits-append :
    (n : ℕ) (s : Bytes) (c m d : ℕ)
    → parse_digits n s ≡ some m
    → hex_value c ≡ some d
    → parse_digits n (s ++ c ∷ []) ≡ some (m * 16 + d)
unfolding parse_digits
parse_digits-append n [] c m d e h = ground arith
parse_digits-append n (b ∷ s) c m d e h = elim (Option-cases (hex_value b)) [
  | inl bad ↦ absurd (ground arith)
  | inr (x, good) ↦
      rw (good, parse_digits) (parse_digits-append (n * 16 + x) s c m d (ground arith) h)
]

-- k digits hold every number below 16 ^ k.
parse_digits-hex_fixed : (k n : ℕ) → n < 16 ^ k → parse_digits 0 (hex_fixed k n) ≡ some n
unfolding hex_fixed parse_digits
parse_digits-hex_fixed zero n h = ap some (omega arith)
parse_digits-hex_fixed (suc k) n h =
    parse_digits-append 0 (hex_fixed k (n / 16)) (hex_digit (n % 16)) (n / 16) (n % 16)
      (parse_digits-hex_fixed k (n / 16) (omega (arith, pow-suc 16 k)))
      (hex_value-hex_digit (n % 16) (omega arith))
    ∙ ap some (omega arith)

hex_count_enough : (f n : ℕ) → n < 16 ^ f → n < 16 ^ hex_count f n
unfolding hex_count
hex_count_enough zero n h = h
hex_count_enough (suc f) n h =
    by_if (λ k. n < 16 ^ k) (n == 0) (λ z. ground arith)
      λ nz. omega (
        arith,
        pow-suc 16 (hex_count f (n / 16)),
        pow-suc 16 f,
        hex_count_enough f (n / 16) (omega (arith, pow-suc 16 f)),
      )

-- What is printed with at least w digits is read back.
pub parse_digits-format_hex : (w n : ℕ) → n < 2 ^ 64 → parse_digits 0 (format_hex w n) ≡ some n
unfolding format_hex
parse_digits-format_hex w n h =
    parse_digits-hex_fixed (max w (hex_count 16 n)) n
      (lt_of_lt_of_le (hex_count_enough 16 n h) (pow-le-pow_right (omega arith) (omega arith)))

-- The bytes of a printed number are digits, and there are some.
abbrev pub IsDigit : ℕ → Type 0
IsDigit c = (d : ℕ) × (d < 16) × (c ≡ hex_digit d)

All-hex_fixed : (k n : ℕ) → All IsDigit (hex_fixed k n)
unfolding hex_fixed
All-hex_fixed zero n = tt
All-hex_fixed (suc k) n =
    All-append IsDigit (hex_fixed k (n / 16)) _ (All-hex_fixed k (n / 16))
      ((n % 16, omega arith, refl), tt)

pub All-format_hex : (w n : ℕ) → All IsDigit (format_hex w n)
unfolding format_hex
All-format_hex w n = All-hex_fixed (max w (hex_count 16 n)) n

length-hex_fixed : (k n : ℕ) → length (hex_fixed k n) ≡ k
unfolding hex_fixed
length-hex_fixed zero n = refl
length-hex_fixed (suc k) n = omega (
  arith,
  length-append (hex_fixed k (n / 16)) (hex_digit (n % 16) ∷ []),
  length-hex_fixed k (n / 16),
)

pub length-format_hex : (w n : ℕ) → w ≤ length (format_hex w n)
unfolding format_hex
length-format_hex w n = omega (arith, length-hex_fixed (max w (hex_count 16 n)) n)
