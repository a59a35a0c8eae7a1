-- ===== src/Secrets/Tests.antt =====
-- The theorems at a cipher and an encoding that change nothing, and texts of some bytes.
use go_toolkits.Base.{◌%◌, ◌≤◌, ◌<◌, ◌+◌, ◌≡◌, refl, ◌↔◌, none, some, [], ◌==◌, length}
use go_toolkits.Base.Bytes.{Bytes, codes}
use go_toolkits.Secrets.{
  Crypto, Outcome, gives, bad_key_length, no_random, panics, repeat, pkcs7_pad, pkcs7_unpad,
  aes_encrypt, aes_decrypt,
}
use go_toolkits.Secrets.Padding.{pkcs7_unpad-pkcs7_pad}
use go_toolkits.Secrets.RoundTrip.{Correct, aes_decrypt-aes_encrypt}
use go_toolkits.Secrets.Panics.{Broken, aes_decrypt-panics_iff}

abbrev crypto : Crypto
crypto = record {
  takes_key = λ k. length k == 32;
  encrypt_blocks = λ k v s. s;
  decrypt_blocks = λ k v s. s;
  encode_base64 = λ s. s;
  decode_base64 = λ s. some s;
}

abbrev key : Bytes
key = repeat 107 32

abbrev iv : Bytes
iv = repeat 118 16

abbrev correct : Correct crypto key iv
correct = record {
  takes = refl;
  keeps_length = λ s h. refl;
  inverse = λ s h. refl;
  decodes = λ s. refl;
}

pkcs7_unpad-pkcs7_pad_example :
    (length (pkcs7_pad (codes "abc") 16) % 16 ≡ 0)
    × (length (codes "abc") < length (pkcs7_pad (codes "abc") 16))
    × (length (pkcs7_pad (codes "abc") 16) ≤ length (codes "abc") + 16)
    × (pkcs7_unpad (pkcs7_pad (codes "abc") 16) ≡ some (codes "abc"))
pkcs7_unpad-pkcs7_pad_example = pkcs7_unpad-pkcs7_pad (codes "abc")

aes_decrypt-aes_encrypt_example :
    (text : Bytes) × (aes_encrypt crypto (codes "abc") key (some iv) ≡ gives text)
    × (aes_decrypt crypto text key ≡ gives (codes "abc"))
aes_decrypt-aes_encrypt_example =
    aes_decrypt-aes_encrypt crypto key iv correct (codes "abc") refl refl

aes_decrypt-panics_iff_example :
    (aes_decrypt crypto (repeat 65 17) key ≡ panics)
    ↔ ((s : Bytes) × (crypto.decode_base64 (repeat 65 17) ≡ some s) × Broken crypto key s)
aes_decrypt-panics_iff_example = aes_decrypt-panics_iff crypto key (repeat 65 17)

short_key : aes_encrypt crypto (codes "abc") (codes "k") (some iv) ≡ bad_key_length
unfolding aes_encrypt
short_key = refl

no_vector : aes_encrypt crypto (codes "abc") key none ≡ no_random
unfolding aes_encrypt
no_vector = refl

-- A text of a full block gets a block of padding.
full_block : length (pkcs7_pad (repeat 65 16) 16) ≡ 32
unfolding pkcs7_pad
full_block = refl

-- A last byte that is no length of a padding empties the text, without an error.
unpadded : aes_decrypt crypto (repeat 65 32) key ≡ gives []
unfolding aes_decrypt go_toolkits.Secrets.decrypt_combined go_toolkits.Secrets.decrypt_whole
    pkcs7_unpad
unpadded = refl
