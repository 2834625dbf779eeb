-- ===== src/Examples/WireRuns.antt =====
-- The theorems on lines, messages and addresses at concrete bytes.
use mathlib.Core.Path.{subst}
use uknow.Prelude.{
  ◌≡◌, refl, [], ◌∷◌, Option, none, some, zero, suc, Outcome, ok, err, ◌↔◌, arith, ℕ, length,
}
use uknow.LineReader.{Bytes, read_lines, new_line_reader, done_reading_lines}
use uknow.LineReader.Lines.{read_lines-non_empty}
use uknow.Cipher.{AesCipher}
use uknow.Cipher.Sealed.{Answers}
use uknow.Messages.{
  JsonCodec, JsonError, encode_json_and_encrypt, decrypt_and_decode_json, decrypt_and_decode-encode,
  decrypt_and_decode_json-error, returns_error, process_ends, json_error,
}

-- Two lines with an empty one between them, read by buffers of one byte and of three.
read_lines-non_empty_example :
    read_lines {E = Unit}
      ((1 ∷ 1 ∷ []) ∷ (3 ∷ 3 ∷ []) ∷ (1 ∷ 3 ∷ []) ∷ [])
      (new_line_reader ((7 ∷ 8 ∷ []) ∷ [] ∷ (9 ∷ []) ∷ []) none)
    ≡ some ((7 ∷ 8 ∷ []) ∷ (9 ∷ []) ∷ [], done_reading_lines)
read_lines-non_empty_example =
    read_lines-non_empty ((1 ∷ 1 ∷ []) ∷ (3 ∷ 3 ∷ []) ∷ (1 ∷ 3 ∷ []) ∷ [])
      ((7 ∷ 8 ∷ []) ∷ [] ∷ (9 ∷ []) ∷ []) none
      (
        (
          omega arith,
          (omega arith, (omega arith, tt)),
          (omega arith, (omega arith, (omega arith, tt))),
        ),
        (
          (
            omega arith,
            (omega arith, (omega arith, tt)),
            (omega arith, (omega arith, (omega arith, tt))),
          ),
          (
            (
              omega arith,
              (omega arith, (omega arith, tt)),
              (omega arith, (omega arith, (omega arith, tt))),
            ),
            tt,
          ),
        ),
      )
      (omega arith)

-- Sealing puts a zero in front; a text that does not begin with a zero is not opened.
abbrev nonce : Bytes
nonce = 5 ∷ []

abbrev three : Bytes
three = 3 ∷ []

abbrev open_zero : Bytes → Bytes → Option Bytes
open_zero salt [] = none
open_zero salt (zero ∷ bytes) = some bytes
open_zero salt (suc b ∷ bytes) = none

abbrev cipher : AesCipher
cipher = record {
  key = [];
  gcm = record { nonce_size = 1; seal = λ salt bytes. 0 ∷ bytes; open_sealed = open_zero };
}

abbrev read_number : Bytes → Outcome JsonError ℕ
read_number [] = err json_error
read_number (n ∷ bytes) = ok n

-- A number as one byte.
abbrev numbers : JsonCodec ℕ
numbers = record { encode = λ n. some (n ∷ []); decode = read_number }

cipher_laws :
    (a : AesCipher)
    → some cipher ≡ some a
    → (some nonce ≡ some nonce)
      × (length nonce ≡ a.gcm.nonce_size)
      × (a.gcm.open_sealed nonce (a.gcm.seal nonce three) ≡ some three)
cipher_laws a e =
    subst
      (λ (x : Option AesCipher). elim x [
        | none ↦ Unit
        | some b ↦
            (some nonce ≡ some nonce)
            × (length nonce ≡ b.gcm.nonce_size)
            × (b.gcm.open_sealed nonce (b.gcm.seal nonce three) ≡ some three)
      ])
      e (refl, refl, refl)

decrypt_and_decode-encode_example :
    (bytes : Bytes) × (encode_json_and_encrypt numbers (λ size. some nonce) (some cipher) 3
      ≡ ok bytes)
    × (decrypt_and_decode_json numbers (some cipher) bytes ≡ ok 3)
decrypt_and_decode-encode_example =
    decrypt_and_decode-encode numbers (λ size. some nonce) (some cipher) 3 three nonce refl refl
      cipher_laws

-- A body that is opened to no byte at all.
nothing_inside : Answers cipher (0 ∷ 5 ∷ []) (some [])
nothing_inside = record {
  text = 0 ∷ [];
  nonce = 5 ∷ [];
  body_is = refl;
  size = refl;
  opened = refl;
}

-- A body that was not sealed.
not_sealed : Answers cipher (4 ∷ 3 ∷ 5 ∷ []) none
not_sealed = record {
  text = 4 ∷ 3 ∷ [];
  nonce = 5 ∷ [];
  body_is = refl;
  size = refl;
  opened = refl;
}

decrypt_and_decode_json-error_example :
    ((decrypt_and_decode_json numbers (some cipher) (0 ∷ 5 ∷ []) ≡ err (returns_error json_error))
      ↔ ((plaintext : Bytes) × Answers cipher (0 ∷ 5 ∷ []) (some plaintext)
          × (read_number plaintext ≡ err json_error)))
    × ((decrypt_and_decode_json numbers (some cipher) (0 ∷ 5 ∷ []) ≡ err process_ends)
        ↔ Answers cipher (0 ∷ 5 ∷ []) none)
decrypt_and_decode_json-error_example =
    decrypt_and_decode_json-error numbers cipher (0 ∷ 5 ∷ []) json_error

is_refused :
    decrypt_and_decode_json numbers (some cipher) (0 ∷ 5 ∷ []) ≡ err (returns_error json_error)
is_refused =
    (decrypt_and_decode_json-error numbers cipher (0 ∷ 5 ∷ []) json_error).0.1
      ([], nothing_inside, refl)

ends_process : decrypt_and_decode_json numbers (some cipher) (4 ∷ 3 ∷ 5 ∷ []) ≡ err process_ends
ends_process =
    (decrypt_and_decode_json-error numbers cipher (4 ∷ 3 ∷ 5 ∷ []) json_error).1.1 not_sealed
