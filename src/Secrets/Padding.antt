-- ===== src/Secrets/Padding.antt =====
-- aws-secrets/: the padding fills the last block, and is taken off again.
use Prim.Native.Nat.{◌≤◌, ◌<◌}
use go_toolkits.Base.{
  ℕ, zero, suc, ◌+◌, ◌-◌, ◌%◌, ◌≡◌, refl, ◌∙◌, ap, false, ◌||◌, some, ◌++◌, ltb, length, take,
  get_elem?, length-append, get_elem?-append, take-append, arith, Option-cases, Bool-cases, inl,
  inr, ◌∷◌, [],
}
use go_toolkits.Base.Bytes.{Bytes}
use go_toolkits.Secrets.{repeat, pkcs7_pad, pkcs7_unpad, written}

length-repeat : (b n : ℕ) → length (repeat b n) ≡ n
length-repeat b zero = refl
length-repeat b (suc n) = omega (arith, length-repeat b n)

last-repeat : (b n : ℕ) → get_elem? (repeat b (suc n)) n ≡ some b
last-repeat b zero = refl
last-repeat b (suc n) = last-repeat b n

-- The padding of blocks of 16 bytes.
abbrev padding_of : Bytes → ℕ
padding_of data_ = 16 - length data_ % 16

pub length-pkcs7_pad :
    (data_ : Bytes) → length (pkcs7_pad data_ 16) ≡ length data_ + padding_of data_
unfolding pkcs7_pad
length-pkcs7_pad data_ =
    length-append data_ (repeat (padding_of data_ % 256) (padding_of data_))
    ∙ ap (λ n. length data_ + n) (length-repeat (padding_of data_ % 256) (padding_of data_))

unpad-repeat :
    (xs : Bytes) (b n : ℕ) → b ≡ suc n → n < 16 → pkcs7_unpad (xs ++ repeat b (suc n)) ≡ some xs
unfolding pkcs7_unpad
unpad-repeat xs b n e h =
    let padded = xs ++ repeat b (suc n) in
    let size : length padded ≡ length xs + suc n =
      length-append xs (repeat b (suc n)) ∙ ap (λ k. length xs + k) (length-repeat b (suc n)) in
    let last : get_elem? padded (length padded - 1) ≡ some b =
      get_elem?-append xs (repeat b (suc n)) n (length padded - 1) (omega (arith, size))
      ∙ last-repeat b n in
    let in_range : (ltb b 1 || ltb 16 b) ≡ false = ground (arith, e, h) in
    let short : ltb (length padded) b ≡ false = ground (arith, size, e) in
    let rest : length padded - b ≡ length xs = omega (arith, size, e) in
    ap (go_toolkits.Secrets.unpadded padded) last
    ∙ rw (in_range, short)
        (ap some (ap (λ k. take k padded) rest ∙ take-append xs (repeat b (suc n))))

unpad-pad : (xs : Bytes) (p : ℕ) → 1 ≤ p → p ≤ 16 → pkcs7_unpad (xs ++ repeat (p % 256) p) ≡ some xs
unpad-pad xs zero h k = absurd (omega (arith, h))
unpad-pad xs (suc n) h k = unpad-repeat xs (suc n % 256) n (omega (arith, k)) (omega (arith, k))

unpadded-padded : (data_ : Bytes) → pkcs7_unpad (pkcs7_pad data_ 16) ≡ some data_
unfolding pkcs7_pad
unpadded-padded data_ = unpad-pad data_ (padding_of data_) (omega arith) (omega arith)

-- Padded, a text has whole blocks of 16 bytes, one more byte at least and 16 more at most; and
-- pkcs7Unpad gives the text again.
pub pkcs7_unpad-pkcs7_pad :
    (data_ : Bytes)
    → (length (pkcs7_pad data_ 16) % 16 ≡ 0)
      × (length data_ < length (pkcs7_pad data_ 16))
      × (length (pkcs7_pad data_ 16) ≤ length data_ + 16)
      × (pkcs7_unpad (pkcs7_pad data_ 16) ≡ some data_)
pkcs7_unpad-pkcs7_pad data_ =
    let size = length-pkcs7_pad data_ in
    (omega (arith, size), omega (arith, size), omega (arith, size), unpadded-padded data_)

-- Of whole blocks, pkcs7Unpad does not panic.
pub pkcs7_unpad_whole :
    (data_ : Bytes) → length data_ % 16 ≡ 0 → (t : Bytes) × (pkcs7_unpad data_ ≡ some t)
unfolding pkcs7_unpad
pkcs7_unpad_whole [] h = ([], refl)
pkcs7_unpad_whole (c ∷ s) h = elim (Option-cases (get_elem? (c ∷ s) (length (c ∷ s) - 1))) [
  | inl e ↦ ([], ap (go_toolkits.Secrets.unpadded (c ∷ s)) e)
  | inr (p, e) ↦ elim (Bool-cases (ltb p 1 || ltb 16 p)) [
    | inl out ↦ ([], ap (go_toolkits.Secrets.unpadded (c ∷ s)) e ∙ rw out refl)
    | inr in_ ↦
        let short : ltb (length (c ∷ s)) p ≡ false = ground (arith, h, in_) in
        (
          take (length (c ∷ s) - p) (c ∷ s),
          ap (go_toolkits.Secrets.unpadded (c ∷ s)) e ∙ rw (in_, short) refl,
        )
  ]
]

pub length-written : (n : ℕ) (s : Bytes) → length (written n s) ≡ n
length-written zero s = refl
length-written (suc n) [] = omega (arith, length-written n [])
length-written (suc n) (c ∷ s) = omega (arith, length-written n s)

pub written_all : (s : Bytes) → written (length s) s ≡ s
written_all [] = refl
written_all (c ∷ s) = ap (λ t. c ∷ t) (written_all s)
