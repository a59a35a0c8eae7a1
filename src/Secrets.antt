-- ===== src/Secrets.antt =====
-- aws-secrets/: AESEncrypt and AESDecrypt with their padding. The cipher, its chaining of blocks (CBC)
-- and base64 are parameters; the random initialization vector is an argument.
pub mod Padding
pub mod Panics
pub mod RoundTrip
mod Tests
use go_toolkits.Base.{
  ℕ, zero, suc, ◌+◌, ◌-◌, ◌%◌, Bool, true, false, not, ◌||◌, Option, none, some, List, [], ◌∷◌,
  ◌++◌, ◌==◌, ltb, if◌then◌else◌, length, take, drop, get_elem?,
}
use go_toolkits.Base.Bytes.{Bytes}

-- What aes, cipher and base64 do: whether NewCipher takes a key, CryptBlocks both ways, of whole blocks
-- with a key and a vector, and the standard encoding.
pub record Crypto : Type 0 where
  pub takes_key : Bytes → Bool
  pub encrypt_blocks : Bytes → Bytes → Bytes → Bytes
  pub decrypt_blocks : Bytes → Bytes → Bytes → Bytes
  pub encode_base64 : Bytes → Bytes
  pub decode_base64 : Bytes → Option Bytes

-- aes.BlockSize
abbrev pub block_size : ℕ
block_size = 16

-- How AESEncrypt and AESDecrypt end: with a text, with one of their errors, or in a panic, by
-- CryptBlocks at a text that is not of whole blocks or by a slice of pkcs7Unpad.
pub data Outcome : Type 0 where
  gives : Bytes → Outcome
  bad_key_length no_random no_cipher not_base64 too_short panics : Outcome

-- bytes.Repeat([]byte{b}, n)
abbrev pub repeat : ℕ → ℕ → Bytes
repeat b zero = []
repeat b (suc n) = b ∷ repeat b n

-- pkcs7Pad
unfoldable pub pkcs7_pad : Bytes → ℕ → Bytes
pkcs7_pad data_ size =
    let padding = size - length data_ % size in data_ ++ repeat (padding % 256) padding

abbrev unpadded : Bytes → Option ℕ → Option Bytes
unpadded data_ none = some []
unpadded data_ (some padding) =
    if ltb padding 1 || ltb block_size padding
    then some []
    else if ltb (length data_) padding
    then none
    else some (take (length data_ - padding) data_)

-- pkcs7Unpad, none where it panics: a padding that is longer than the data.
pub pkcs7_unpad : Bytes → Option Bytes
pkcs7_unpad data_ = unpadded data_ (get_elem? data_ (length data_ - 1))

-- make([]byte, n), with what CryptBlocks writes into it.
abbrev pub written : ℕ → Bytes → Bytes
written zero s = []
written (suc n) [] = 0 ∷ written n []
written (suc n) (c ∷ s) = c ∷ written n s

abbrev given : Option Bytes → Outcome
given none = panics
given (some text) = gives text

module _ (crypto : Crypto) where
  abbrev encrypt_with : Bytes → Bytes → Option Bytes → Outcome
  encrypt_with plaintext key none = no_random
  encrypt_with plaintext key (some iv) =
      if crypto.takes_key key
      then gives (
          crypto.encode_base64
            (iv ++ crypto.encrypt_blocks key iv (pkcs7_pad plaintext block_size)))
      else no_cipher

  -- AESEncrypt; the vector is what the random reader gives, none where it fails.
  pub aes_encrypt : Bytes → Bytes → Option Bytes → Outcome
  aes_encrypt plaintext key iv =
      if not (length key == 32) then bad_key_length else encrypt_with plaintext key iv

  -- CryptBlocks, and the padding taken off.
  pub decrypt_whole : Bytes → Bytes → Bytes → Outcome
  decrypt_whole key iv ciphertext =
      if length ciphertext % block_size == 0
      then given
          (pkcs7_unpad (written (length ciphertext) (crypto.decrypt_blocks key iv ciphertext)))
      else panics

  pub decrypt_combined : Bytes → Option Bytes → Outcome
  decrypt_combined key none = not_base64
  decrypt_combined key (some combined) =
      if ltb (length combined) block_size
      then too_short
      else if crypto.takes_key key
      then decrypt_whole key (take block_size combined) (drop block_size combined)
      else no_cipher

  -- AESDecrypt
  pub aes_decrypt : Bytes → Bytes → Outcome
  aes_decrypt encoded_text key = decrypt_combined key (crypto.decode_base64 encoded_text)
