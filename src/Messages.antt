-- ===== src/Messages.antt =====
-- internal/messages/messages.go: messages as JSON, sealed if there is a cipher, and the events of the
-- server by their types. JSON is a parameter. The headers of responses are left out.
use uknow.Prelude.{
  ◌↔◌, sym, ◌∙◌, ◌≢◌, inl, inr, ℕ, ◌≡◌, refl, ap, eq_iff, String, List, [], ◌∷◌, ◌++◌, Option, none,
  some, Outcome, ok, err, panic, str_eq, if◌then◌else◌, length, arith, ◌>>=◌,
}
use uknow.Table.{Table}
use uknow.LineReader.{Bytes}
use uknow.Cipher.{
  AesCipher, CipherError, Exit, fatal, must_encrypt_json, must_decrypt_json, decrypt,
}
use uknow.Cipher.Sealed.{Answers, Answers-decrypt, decrypt_cases, decrypt-encrypt}
use uknow.Admin.Server.{PlayerDecisionsRequest}
use uknow.Client.Events.{
  ServerEvent, player_joined, existing_players_list, served_cards, chosen_player,
  player_decisions_sync,
}

-- An error of the JSON library.
pub data JsonError : Type 0 where
  json_error : JsonError

-- The encoder and the decoder of a type.
pub record JsonCodec (A : Type 0) : Type 0 where
  pub encode : A → Option Bytes
  pub decode : Bytes → Outcome JsonError A

-- What the caller of a call that failed sees: an error of the JSON library, or nothing, since
-- `log.Fatal` ended the process. A panic is neither; `net/http` recovers it in a handler.
pub data CallFailure : Type 0 where
  returns_error : JsonError → CallFailure
  process_ends : CallFailure

abbrev pub returned : {A : Type 0} → Outcome JsonError A → Outcome CallFailure A
returned (ok value) = ok value
returned (err e) = err (returns_error e)
returned panic = panic

-- Decoding what the cipher opened: the cipher never returns an error.
abbrev decode_opened : {A : Type 0} → JsonCodec A → Outcome Exit Bytes → Outcome CallFailure A
decode_opened codec (ok bytes) = returned (codec.decode bytes)
decode_opened codec (err _) = err process_ends
decode_opened codec panic = panic

unfoldable pub decrypt_and_decode_json :
    {A : Type 0} → JsonCodec A → Option AesCipher → Bytes → Outcome CallFailure A
unfolding must_decrypt_json
decrypt_and_decode_json codec none input = returned (codec.decode input)
decrypt_and_decode_json codec (some a) input = decode_opened codec (must_decrypt_json a input)

abbrev encoded_or_err : Option Bytes → Outcome CallFailure Bytes
encoded_or_err none = err (returns_error json_error)
encoded_or_err (some bytes) = ok bytes

abbrev sealed_or_end : Outcome Exit Bytes → Outcome CallFailure Bytes
sealed_or_end (ok bytes) = ok bytes
sealed_or_end (err _) = err process_ends
sealed_or_end panic = panic

unfoldable pub encode_json_and_encrypt :
    {A : Type 0}
    → JsonCodec A
    → (ℕ → Option Bytes)
    → Option AesCipher
    → A
    → Outcome CallFailure Bytes
unfolding must_encrypt_json
encode_json_and_encrypt codec random none value = encoded_or_err (codec.encode value)
encode_json_and_encrypt codec random (some a) value =
    sealed_or_end (must_encrypt_json random a (codec.encode value))

-- A message that is encoded and encrypted is decrypted and decoded to itself, with the same cipher on
-- both sides or none: if the JSON of the value is decoded to the value, and the AEAD opens what it
-- sealed with the nonce, which has its size.
pub decrypt_and_decode-encode :
    {A : Type 0} (codec : JsonCodec A) (random : ℕ → Option Bytes) (cipher : Option AesCipher)
    (value : A) (json nonce : Bytes)
    → codec.encode value ≡ some json
    → codec.decode json ≡ ok value
    → ((a : AesCipher)
        → cipher ≡ some a
        → (random a.gcm.nonce_size ≡ some nonce)
          × (length nonce ≡ a.gcm.nonce_size)
          × (a.gcm.open_sealed nonce (a.gcm.seal nonce json) ≡ some json))
    → (bytes : Bytes) × (encode_json_and_encrypt codec random cipher value ≡ ok bytes)
      × (decrypt_and_decode_json codec cipher bytes ≡ ok value)
unfolding encode_json_and_encrypt decrypt_and_decode_json must_encrypt_json must_decrypt_json
decrypt_and_decode-encode codec random none value json nonce e d laws =
    (json, ground (arith, e), ground (arith, d))
decrypt_and_decode-encode codec random (some a) value json nonce e d laws =
    let (r, n, o) = laws a refl in
    let (sealed, opened) = decrypt-encrypt {E = Unit} random a nonce json r n o in
    (a.gcm.seal nonce json ++ nonce, ground (arith, e, sealed), ground (arith, d, opened))

returned-error :
    {A : Type 0} (r : Outcome JsonError A) (e : JsonError)
    → returned r ≡ err (returns_error e)
    → r ≡ err e
returned-error (ok value) e h = ground (arith, h)
returned-error (err x) e h = ground (arith, h)
returned-error panic e h = ground (arith, h)

returned-goes_on : {A : Type 0} (r : Outcome JsonError A) → returned r ≢ err process_ends
returned-goes_on (ok value) h = ground (arith, h)
returned-goes_on (err x) h = ground (arith, h)
returned-goes_on panic h = ground (arith, h)

module _ {A : Type 0} (codec : JsonCodec A) (a : AesCipher) (body : Bytes) where
  abbrev call : Outcome (CipherError Unit) Bytes → Outcome CallFailure A
  call r = decode_opened codec (fatal r)

  call-error :
      (e : JsonError)
      → call (decrypt {E = Unit} a body) ≡ err (returns_error e)
      → (plaintext : Bytes) × Answers a body (some plaintext) × (codec.decode plaintext ≡ err e)
  call-error e h = elim (decrypt_cases {E = Unit} a body) [
    | inl p ↦ absurd (ground (arith, ap call p, h))
    | inr (none, o, p) ↦ absurd (ground (arith, ap call p, h))
    | inr (some plaintext, o, p) ↦
        (plaintext, o, returned-error (codec.decode plaintext) e (sym (ap call p) ∙ h))
  ]

  call-ends : call (decrypt {E = Unit} a body) ≡ err process_ends → Answers a body none
  call-ends h = elim (decrypt_cases {E = Unit} a body) [
    | inl p ↦ absurd (ground (arith, ap call p, h))
    | inr (none, o, p) ↦ o
    | inr (some plaintext, o, p) ↦
        absurd (returned-goes_on (codec.decode plaintext) (sym (ap call p) ∙ h))
  ]

  -- With a cipher, an error is returned for exactly the bodies that the AEAD opens, with the nonce at
  -- their end, to something that the JSON library refuses with this error; and the process ends for
  -- exactly those that have room for a nonce and that the AEAD does not open with it. So a body that was
  -- not sealed with the key is never answered by an error.
  pub decrypt_and_decode_json-error :
      (e : JsonError)
      → ((decrypt_and_decode_json codec (some a) body ≡ err (returns_error e)) ↔ (
          (plaintext : Bytes) × Answers a body (some plaintext) × (codec.decode plaintext ≡ err e)))
        × ((decrypt_and_decode_json codec (some a) body ≡ err process_ends) ↔ Answers a body none)
  unfolding decrypt_and_decode_json must_decrypt_json
  decrypt_and_decode_json-error e = (
    (
      call-error e,
      λ h. ap call (Answers-decrypt {E = Unit} a body (some h.0) h.1) ∙ ap returned h.2,
    ),
    (call-ends, λ o. ap call (Answers-decrypt {E = Unit} a body none o)),
  )

-- `EventType()`
unfoldable pub event_type : ServerEvent → String
event_type (player_joined _) = "player_joined"
event_type (existing_players_list _) = "existing_players_list"
event_type (served_cards _) = "served_cards"
event_type (chosen_player _ _) = "chosen_player"
event_type (player_decisions_sync _) = "player_decisions_sync"

-- What the JSON library reads of a line: its type, and its event as one of the five.
pub record EventReader : Type 0 where
  pub only_type : Bytes → Outcome JsonError String
  pub as_player_joined : Bytes → Outcome JsonError String
  pub as_existing_players : Bytes → Outcome JsonError (List String)
  pub as_served_cards : Bytes → Outcome JsonError Table
  pub as_chosen_player : Bytes → Outcome JsonError (String × ℕ)
  pub as_decisions_sync : Bytes → Outcome JsonError PlayerDecisionsRequest

-- `DecodeEvent` for the type that the line names.
abbrev decode_event : EventReader → Bytes → String → Outcome JsonError ServerEvent
decode_event json line type =
    if str_eq type "player_joined"
    then (json.as_player_joined line >>= λ name. ok (player_joined name))
    else if str_eq type "existing_players_list"
    then (json.as_existing_players line >>= λ names. ok (existing_players_list names))
    else if str_eq type "served_cards"
    then (json.as_served_cards line >>= λ t. ok (served_cards t))
    else if str_eq type "chosen_player"
    then (json.as_chosen_player line >>= λ chosen. ok (chosen_player chosen.0 chosen.1))
    else if str_eq type "player_decisions_sync"
    then (json.as_decisions_sync line >>= λ ev. ok (player_decisions_sync ev))
    else err json_error

unfoldable pub parse_server_event_message : EventReader → Bytes → Outcome JsonError ServerEvent
parse_server_event_message json line = json.only_type line >>= λ type. decode_event json line type

decode_event-event_type :
    (json : EventReader) (line : Bytes) (type : String) (ev : ServerEvent)
    → decode_event json line type ≡ ok ev
    → type ≡ event_type ev
unfolding event_type
decode_event-event_type json line type ev e = ground (
  arith,
  e,
  eq_iff type "player_joined",
  eq_iff type "existing_players_list",
  eq_iff type "served_cards",
  eq_iff type "chosen_player",
  eq_iff type "player_decisions_sync",
)

typed :
    (json : EventReader) (line : Bytes) (r : Outcome JsonError String) (ev : ServerEvent)
    → (r >>= λ type. decode_event json line type) ≡ ok ev
    → r ≡ ok (event_type ev)
typed json line (ok type) ev e = ap ok (decode_event-event_type json line type ev e)
typed json line (err x) ev e = ground (arith, e)
typed json line panic ev e = ground (arith, e)

-- An event that is parsed has the type that its line names.
pub parse-event_type :
    (json : EventReader) (line : Bytes) (ev : ServerEvent)
    → parse_server_event_message json line ≡ ok ev
    → json.only_type line ≡ ok (event_type ev)
unfolding parse_server_event_message
parse-event_type json line ev e = typed json line (json.only_type line) ev e

-- An error with the errors that it wraps.
pub data ErrorChain : Type 0 where
  plain : String → ErrorChain
  wraps : String → ErrorChain → ErrorChain

-- `payload.Add(err)`
unfoldable pub add_error : List String → ErrorChain → List String
add_error errors (plain text) = errors ++ text ∷ []
add_error errors (wraps text inner) = add_error (errors ++ text ∷ []) inner
