-- ===== src/Cipher/Sealed.antt =====
-- What is encrypted is decrypted again, which texts are decrypted, and which keys are refused.
use mathlib.Core.Path.{subst}
use uknow.Prelude.{
  ℕ, ◌+◌, ◌-◌, ◌*◌, ◌≡◌, refl, sym, ap, ◌∙◌, [], ◌∷◌, ◌++◌, Option, none, some, Outcome, ok, err,
  length, take, drop, arith, ◌≤◌, length-drop, take-append-drop, panic, ltb, Bool-cases, ◌⊎◌, inl,
  inr, length-append, take-append_length, some_of,
}
use uknow.LineReader.{Bytes}
use uknow.Cipher.{
  CipherError, authentication_failed, Aead, AesCipher, decode_hex, new_aes_cipher, encrypt, decrypt,
  hex_digit, hex_byte,
}

drop-append_length : (xs ys : Bytes) → drop (length xs) (xs ++ ys) ≡ ys
drop-append_length [] ys = refl
drop-append_length (x ∷ xs) ys = drop-append_length xs ys

take_all : (xs : Bytes) → take (length xs) xs ≡ xs
take_all [] = refl
take_all (x ∷ xs) = ap (◌∷◌ x) (take_all xs)

-- A text that was encrypted is decrypted to itself: if the nonce has the size that the AEAD asks for,
-- and the AEAD opens what it sealed with this nonce.
pub decrypt-encrypt :
    {E : Type 0} (random : ℕ → Option Bytes) (a : AesCipher) (nonce plaintext : Bytes)
    → random a.gcm.nonce_size ≡ some nonce
    → length nonce ≡ a.gcm.nonce_size
    → a.gcm.open_sealed nonce (a.gcm.seal nonce plaintext) ≡ some plaintext
    → (encrypt {E = E} random a plaintext ≡ ok (a.gcm.seal nonce plaintext ++ nonce))
      × (decrypt {E = E} a (a.gcm.seal nonce plaintext ++ nonce) ≡ ok plaintext)
unfolding encrypt decrypt
decrypt-encrypt random a nonce plaintext r n o =
    let sealed = a.gcm.seal nonce plaintext in
    let size : length (sealed ++ nonce) - a.gcm.nonce_size ≡ length sealed =
      omega (arith, length-append sealed nonce, n) in
    let whole : take a.gcm.nonce_size nonce ≡ nonce = rw (← n) (take_all nonce) in
    (
      ground (arith, r),
      ground (
        arith,
        o,
        size,
        whole,
        take-append_length sealed nonce,
        drop-append_length sealed nonce,
        length-append sealed nonce,
        n,
      ),
    )

-- The body is a text with a nonce behind it, and this is what the AEAD answers when it is to open them.
pub record Answers (a : AesCipher) (body : Bytes) (answer : Option Bytes) : Type 0 where
  pub text : Bytes
  pub nonce : Bytes
  pub body_is : body ≡ text ++ nonce
  pub size : length nonce ≡ a.gcm.nonce_size
  pub opened : a.gcm.open_sealed nonce text ≡ answer

abbrev pub opened_or_err : {E : Type 0} → Option Bytes → Outcome (CipherError E) Bytes
opened_or_err none = err authentication_failed
opened_or_err (some plaintext) = ok plaintext

take_whole : (n : ℕ) (xs : Bytes) → length xs ≡ n → take n xs ≡ xs
take_whole n xs e = rw (← e) (take_all xs)

-- A body that is long enough has its nonce at the end.
long_enough :
    (a : AesCipher) (body : Bytes)
    → a.gcm.nonce_size ≤ length body
    → let n = length body - a.gcm.nonce_size in
      Answers a body (a.gcm.open_sealed (take a.gcm.nonce_size (drop n body)) (take n body))
long_enough a body long =
    let n = length body - a.gcm.nonce_size in
    let size : length (drop n body) ≡ a.gcm.nonce_size = omega (arith, length-drop n body, long) in
    record {
      text = take n body;
      nonce = drop n body;
      body_is = sym (take-append-drop n body);
      size = size;
      opened =
          ap (λ nonce. a.gcm.open_sealed nonce (take n body))
            (sym (take_whole a.gcm.nonce_size (drop n body) size));
    }

pub Answers-decrypt :
    {E : Type 0} (a : AesCipher) (body : Bytes) (answer : Option Bytes)
    → Answers a body answer
    → decrypt {E = E} a body ≡ opened_or_err answer
unfolding decrypt
Answers-decrypt {E} a body answer o =
    subst (λ b. decrypt {E = E} a b ≡ opened_or_err answer) (sym o.body_is)
      (ground (
        arith,
        o.opened,
        text_size,
        take_whole a.gcm.nonce_size o.nonce o.size,
        take-append_length o.text o.nonce,
        drop-append_length o.text o.nonce,
        length-append o.text o.nonce,
        o.size,
      ))
  where
    text_size : length (o.text ++ o.nonce) - a.gcm.nonce_size ≡ length o.text
    text_size = omega (arith, length-append o.text o.nonce, o.size)

-- Decrypting either panics, on a body that is shorter than a nonce, or passes on the AEAD's answer.
pub decrypt_cases :
    {E : Type 0} (a : AesCipher) (body : Bytes)
    → (decrypt {E = E} a body ≡ panic)
      ⊎ ((answer : Option Bytes) × Answers a body answer
          × (decrypt {E = E} a body ≡ opened_or_err answer))
unfolding decrypt
decrypt_cases {E} a body = elim (Bool-cases (ltb (length body) a.gcm.nonce_size)) [
  | inl short ↦ inl (ground (arith, short))
  | inr long ↦
      let o = long_enough a body (ground (arith, long)) in
      inr (_, o, Answers-decrypt {E = E} a body _ o)
]

hex_byte-some :
    (x y : Option ℕ) (r : Option Bytes) (key : Bytes)
    → hex_byte x y r ≡ some key
    → (head : ℕ) × (rest : Bytes) × (r ≡ some rest) × (key ≡ head ∷ rest)
hex_byte-some (some x) (some y) (some rest) key e = (16 * x + y, rest, refl, ground (arith, e))
hex_byte-some (some x) (some y) none key e = ground (arith, e)
hex_byte-some (some x) none r key e = ground (arith, e)
hex_byte-some none y r key e = ground (arith, e)

decode_hex-length : (text key : Bytes) → decode_hex text ≡ some key → 2 * length key ≡ length text
unfolding decode_hex
decode_hex-length [] key e = ground (arith, e)
decode_hex-length (a ∷ []) key e = ground (arith, e)
decode_hex-length (a ∷ b ∷ text) key e =
    let (head, rest, r, k) = hex_byte-some (hex_digit a) (hex_digit b) (decode_hex text) key e in
    omega (arith, decode_hex-length text rest r, ap length k)

-- A key is accepted only as 64 hexadecimal digits, of which it is the 32 bytes, with the AEAD that is
-- made of them.
pub new_aes_cipher-key :
    {E : Type 0} (make : Bytes → Outcome E Aead) (text : Bytes) (c : AesCipher)
    → new_aes_cipher make text ≡ ok c
    → (length text ≡ 64)
      × (decode_hex text ≡ some c.key)
      × (length c.key ≡ 32)
      × (make c.key ≡ ok c.gcm)
unfolding new_aes_cipher
new_aes_cipher-key make text c e =
    let (key, d) = some_of (decode_hex text) (λ z. ground (arith, z, e)) in
    let k : c.key ≡ key = ground (arith, d, e) in
    let l : length text ≡ 64 = ground (arith, e) in
    (
      l,
      d ∙ ap some (sym k),
      omega (arith, decode_hex-length text key d, ap length k, l),
      ground (arith, d, e),
    )
