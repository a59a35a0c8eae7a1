-- ===== src/Secrets/RoundTrip.antt =====
-- aws-secrets/: AESDecrypt of what AESEncrypt gives, and where AESDecrypt panics.
use go_toolkits.Base.{
  ◌%◌, ◌≡◌, refl, sym, ◌∙◌, ap, true, false, some, ◌++◌, ◌==◌, ltb, length, take, drop,
  length-append, take-append, drop-append, arith,
}
use go_toolkits.Base.Bytes.{Bytes}
use go_toolkits.Secrets.{
  Crypto, gives, pkcs7_pad, pkcs7_unpad, written, aes_encrypt, aes_decrypt, decrypt_combined,
  decrypt_whole,
}
use go_toolkits.Secrets.Padding.{pkcs7_unpad-pkcs7_pad, written_all}

-- What the round trip relies on: the key is taken; of whole blocks, CryptBlocks gives as many bytes, and
-- the decrypter is the inverse of the encrypter; base64 is decoded.
pub record Correct (crypto : Crypto) (key iv : Bytes) : Type 0 where
  pub takes : crypto.takes_key key ≡ true
  pub keeps_length :
      (s : Bytes) → length s % 16 ≡ 0 → length (crypto.encrypt_blocks key iv s) ≡ length s
  pub inverse :
      (s : Bytes)
      → length s % 16 ≡ 0
      → crypto.decrypt_blocks key iv (crypto.encrypt_blocks key iv s) ≡ s
  pub decodes : (s : Bytes) → crypto.decode_base64 (crypto.encode_base64 s) ≡ some s

module _ (crypto : Crypto) (key iv : Bytes) (correct : Correct crypto key iv) where
  whole :
      (text : Bytes)
      → decrypt_whole crypto key iv (crypto.encrypt_blocks key iv (pkcs7_pad text 16)) ≡ gives text
  unfolding decrypt_whole
  whole text =
      let (blocks, more, most, back) = pkcs7_unpad-pkcs7_pad text in
      let padded = pkcs7_pad text 16 in
      let size = correct.keeps_length padded blocks in
      let test : (length (crypto.encrypt_blocks key iv padded) % 16 == 0) ≡ true =
        ground (arith, size, blocks) in
      let plain : written (length (crypto.encrypt_blocks key iv padded))
            (crypto.decrypt_blocks key iv (crypto.encrypt_blocks key iv padded))
          ≡ padded =
        ap (λ n. written n (crypto.decrypt_blocks key iv (crypto.encrypt_blocks key iv padded)))
          size
        ∙ ap (written (length padded)) (correct.inverse padded blocks)
        ∙ written_all padded in
      rw test (
        ap (λ s. go_toolkits.Secrets.given (pkcs7_unpad s)) plain
        ∙ ap go_toolkits.Secrets.given back)

  combined :
      (ciphertext : Bytes)
      → length iv ≡ 16
      → decrypt_combined crypto key (some (iv ++ ciphertext))
        ≡ decrypt_whole crypto key iv ciphertext
  unfolding decrypt_combined
  combined ciphertext h =
      let long : ltb (length (iv ++ ciphertext)) 16 ≡ false =
        ground (arith, length-append iv ciphertext, h) in
      let front : take 16 (iv ++ ciphertext) ≡ iv =
        ap (λ n. take n (iv ++ ciphertext)) (sym h) ∙ take-append iv ciphertext in
      let rest : drop 16 (iv ++ ciphertext) ≡ ciphertext =
        drop-append iv ciphertext 0 16 (omega (arith, h)) in
      rw (long, correct.takes)
        (ap (λ v. decrypt_whole crypto key v (drop 16 (iv ++ ciphertext))) front
          ∙ ap (decrypt_whole crypto key iv) rest)

  -- With a key of 32 bytes and a vector of 16, and if the cipher takes the key, its blocks are decrypted
  -- to what was encrypted and base64 is decoded: AESEncrypt gives a text, of which AESDecrypt with the
  -- same key gives the plaintext, for every plaintext.
  pub aes_decrypt-aes_encrypt :
      (plaintext : Bytes)
      → length key ≡ 32
      → length iv ≡ 16
      → (text : Bytes) × (aes_encrypt crypto plaintext key (some iv) ≡ gives text)
        × (aes_decrypt crypto text key ≡ gives plaintext)
  unfolding aes_encrypt aes_decrypt
  aes_decrypt-aes_encrypt plaintext k v =
      let s = iv ++ crypto.encrypt_blocks key iv (pkcs7_pad plaintext 16) in
      let test : (length key == 32) ≡ true = ground (arith, k) in
      (
        crypto.encode_base64 s,
        rw (test, correct.takes) refl,
        ap (decrypt_combined crypto key) (correct.decodes s)
            ∙ combined (crypto.encrypt_blocks key iv (pkcs7_pad plaintext 16)) v
            ∙ whole plaintext,
      )
