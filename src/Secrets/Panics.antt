-- ===== src/Secrets/Panics.antt =====
-- aws-secrets/: where AESDecrypt panics.
use go_toolkits.Base.{
  ◌%◌, ◌≤◌, ◌≡◌, refl, sym, ◌∙◌, ap, ◌↔◌, ◌≢◌, true, false, some, ◌==◌, ltb, length, take, drop,
  arith, Bool-cases, Option-cases, inl, inr,
}
use go_toolkits.Base.Bytes.{Bytes}
use go_toolkits.Secrets.Padding.{pkcs7_unpad_whole, length-written}
use go_toolkits.Secrets.{
  Crypto, gives, panics, not_base64, too_short, no_cipher, pkcs7_unpad, written, aes_decrypt,
  decrypt_combined, decrypt_whole,
}

module _ (crypto : Crypto) (key : Bytes) where
  whole-panics : (iv c : Bytes) → decrypt_whole crypto key iv c ≡ panics → length c % 16 ≢ 0
  unfolding decrypt_whole
  whole-panics iv c h e =
      let test : (length c % 16 == 0) ≡ true = ground (arith, e) in
      let plain = written (length c) (crypto.decrypt_blocks key iv c) in
      let (t, unpads) =
        pkcs7_unpad_whole plain (ap (λ n. n % 16) (length-written (length c) _) ∙ e) in
      let given : decrypt_whole crypto key iv c ≡ gives t =
        rw test (ap go_toolkits.Secrets.given unpads) in
      cc

  panics-whole : (iv c : Bytes) → length c % 16 ≢ 0 → decrypt_whole crypto key iv c ≡ panics
  unfolding decrypt_whole
  panics-whole iv c h = let test : (length c % 16 == 0) ≡ false = ground (arith, h) in rw test refl

  -- The text is long enough, the key is taken, and what stands behind the vector is not of whole blocks.
  abbrev pub Broken : Bytes → Type 0
  Broken s = (16 ≤ length s) × (crypto.takes_key key ≡ true) × (length (drop 16 s) % 16 ≢ 0)

  combined-panics : (s : Bytes) → decrypt_combined crypto key (some s) ≡ panics → Broken s
  unfolding decrypt_combined
  combined-panics s h = elim (Bool-cases (ltb (length s) 16)) [
    | inl short ↦ let given : decrypt_combined crypto key (some s) ≡ too_short = rw short refl in cc
    | inr long ↦ elim (Bool-cases (crypto.takes_key key)) [
      | inl takes ↦
          let given : decrypt_combined crypto key (some s)
              ≡ decrypt_whole crypto key (take 16 s) (drop 16 s) =
            rw (long, takes) refl in
          (ground (arith, long), takes, whole-panics (take 16 s) (drop 16 s) (sym given ∙ h))
      | inr refuses ↦
          let given : decrypt_combined crypto key (some s) ≡ no_cipher = rw (long, refuses) refl in
          cc
    ]
  ]

  panics-combined : (s : Bytes) → Broken s → decrypt_combined crypto key (some s) ≡ panics
  unfolding decrypt_combined
  panics-combined s (size, takes, blocks) =
      let long : ltb (length s) 16 ≡ false = ground (arith, size) in
      rw (long, takes) (panics-whole (take 16 s) (drop 16 s) blocks)

  -- AESDecrypt panics exactly at a text of base64 for 16 bytes or more, with a key that the cipher
  -- takes, where the bytes behind the first 16 are not of whole blocks.
  pub aes_decrypt-panics_iff :
      (text : Bytes)
      → (aes_decrypt crypto text key ≡ panics)
        ↔ ((s : Bytes) × (crypto.decode_base64 text ≡ some s) × Broken s)
  unfolding aes_decrypt decrypt_combined
  aes_decrypt-panics_iff text = (
    λ h. elim (Option-cases (crypto.decode_base64 text)) [
      | inl e ↦
          let given : decrypt_combined crypto key (crypto.decode_base64 text) ≡ not_base64 =
            rw e refl in
          cc
      | inr (s, e) ↦ (s, e, combined-panics s (sym (ap (decrypt_combined crypto key) e) ∙ h))
    ],
    λ (s, e, b). ap (decrypt_combined crypto key) e ∙ panics-combined s b,
  )
