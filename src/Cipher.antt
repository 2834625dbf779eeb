-- ===== src/Cipher.antt =====
-- aes_encrypt.go: the cipher of the messages. A byte is a number. The AEAD that crypto/aes and
-- crypto/cipher make of a key is a parameter, and so are the random bytes and the JSON of a value.
pub mod Sealed
use uknow.Prelude.{
  ℕ, zero, suc, ◌+◌, ◌-◌, ◌*◌, Bool, true, false, not, ◌||◌, ◌&&◌, List, [], ◌∷◌, ◌++◌, Option,
  none, some, Outcome, ok, err, panic, ◌>>=◌, length, take, drop, ltb, leb, ◌==◌, if◌then◌else◌,
}
use uknow.LineReader.{Bytes}

-- `cipher.AEAD`; `open` answers nothing for a text that was not sealed with the nonce.
pub record Aead : Type 0 where
  pub nonce_size : ℕ
  pub seal : Bytes → Bytes → Bytes
  pub open_sealed : Bytes → Bytes → Option Bytes

pub record AesCipher : Type 0 where
  pub key : Bytes
  pub gcm : Aead

pub data CipherError (E : Type 0) : Type 0 where
  err_invalid_aes_key_length invalid_hex : CipherError E
  no_random_bytes authentication_failed : CipherError E
  cipher_error : E → CipherError E

-- What is not recovered: `log.Fatal` ends the process, where a panic ends only the handler that runs.
pub data Exit : Type 0 where
  log_fatal : Exit

-- The value of a hexadecimal digit.
abbrev hex_digit : ℕ → Option ℕ
hex_digit b =
    if leb b'0' b && leb b b'9'
    then some (b - b'0')
    else if leb b'a' b && leb b b'f'
    then some (b - b'a' + 10)
    else if leb b'A' b && leb b b'F'
    then some (b - b'A' + 10)
    else none

abbrev hex_byte : Option ℕ → Option ℕ → Option Bytes → Option Bytes
hex_byte (some high) (some low) (some rest) = some ((16 * high + low) ∷ rest)
hex_byte _ _ _ = none

-- `hex.DecodeString`
unfoldable pub decode_hex : Bytes → Option Bytes
decode_hex [] = some []
decode_hex (a ∷ []) = none
decode_hex (a ∷ b ∷ text) = hex_byte (hex_digit a) (hex_digit b) (decode_hex text)

module _ {E : Type 0} where
  -- `make` is `aes.NewCipher` and `cipher.NewGCM`.
  unfoldable pub new_aes_cipher :
      (Bytes → Outcome E Aead) → Bytes → Outcome (CipherError E) AesCipher
  new_aes_cipher make hex_key =
      if not (length hex_key == 64)
      then err err_invalid_aes_key_length
      else elim (decode_hex hex_key) [
        | none ↦ err invalid_hex
        | some key ↦ elim (make key) [
          | ok gcm ↦ ok (record { key = key; gcm = gcm })
          | err e ↦ err (cipher_error e)
          | panic ↦ panic
        ]
      ]

  -- `random` fills the nonce.
  unfoldable pub encrypt : (ℕ → Option Bytes) → AesCipher → Bytes → Outcome (CipherError E) Bytes
  encrypt random a plaintext_bytes = elim (random a.gcm.nonce_size) [
    | none ↦ err no_random_bytes
    | some nonce ↦ ok (a.gcm.seal nonce plaintext_bytes ++ nonce)
  ]

  -- A text that is shorter than the nonce makes a slice with a negative bound.
  unfoldable pub decrypt : AesCipher → Bytes → Outcome (CipherError E) Bytes
  decrypt a encrypted =
      if ltb (length encrypted) a.gcm.nonce_size
      then panic
      else (let n = length encrypted - a.gcm.nonce_size in
          elim (a.gcm.open_sealed (take a.gcm.nonce_size (drop n encrypted)) (take n encrypted)) [
            | none ↦ err authentication_failed
            | some plaintext ↦ ok plaintext
          ])

  -- `log.Fatal` on an error; a panic stays a panic.
  abbrev pub fatal : Outcome (CipherError E) Bytes → Outcome Exit Bytes
  fatal (ok b) = ok b
  fatal (err e) = err log_fatal
  fatal panic = panic

-- `encoded` is the JSON of the value; where it or the cipher fails, `log.Fatal` ends the process.
unfoldable pub must_encrypt_json :
    (ℕ → Option Bytes) → AesCipher → Option Bytes → Outcome Exit Bytes
unfolding encrypt
must_encrypt_json random a encoded = elim encoded [
  | none ↦ err log_fatal
  | some bytes ↦ fatal (encrypt {E = Unit} random a bytes)
]

unfoldable pub must_decrypt_json : AesCipher → Bytes → Outcome Exit Bytes
unfolding decrypt
must_decrypt_json a encrypted = fatal (decrypt {E = Unit} a encrypted)
