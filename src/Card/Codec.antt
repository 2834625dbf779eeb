-- ===== src/Card/Codec.antt =====
-- What card_hash.go promises: packing a card of the game loses nothing.
use uknow.Prelude.{
  ℕ, zero, suc, ◌<◌, ◌≡◌, refl, ap, ◌↔◌, Bool, true, false, ◌&&◌, Outcome, ok, err, arith, ◌==◌,
}
use uknow.Card.{Card, card, encode_uint32, decode_card_from_uint32, hash, is_equal}

-- A card whose number and color have a name in the source.
abbrev pub InRange : Card → Type 0
InRange c = (c.number < 15) × (c.color < 5)

-- The test passes on every number below a bound, by evaluation.
pub passes_on : (ℕ → Bool) → ℕ → Bool
passes_on test zero = true
passes_on test (suc last) = passes_on test last && test last

pub passes_on-at :
    (test : ℕ → Bool) (bound i : ℕ) → i < bound → passes_on test bound ≡ true → test i ≡ true
unfolding passes_on
passes_on-at test zero i inside passed = absurd (omega (arith, inside))
passes_on-at test (suc last) i inside passed =
    ground (arith, inside, passed, passes_on-at test last i)

pub is_equal_iff : (c d : Card) → (is_equal c d ≡ true) ↔ (c ≡ d)
is_equal_iff c d = ground arith

decodes_to : {E : Type 0} → Outcome E Card → Card → Bool
decodes_to (ok d) c = is_equal d c
decodes_to _ c = false

decodes_to_sound : {E : Type 0} (o : Outcome E Card) (c : Card) → decodes_to o c ≡ true → o ≡ ok c
unfolding decodes_to
decodes_to_sound (ok d) c h = ap ok ((is_equal_iff d c).0 h)
decodes_to_sound (err e) c h = cc
decodes_to_sound Outcome.panic c h = cc

encodes_to : {E : Type 0} → Outcome E Card → ℕ → Bool
encodes_to (ok d) x = encode_uint32 d == x
encodes_to _ x = true

round_trip_table :
    passes_on
      (λ n.
        passes_on
          (λ k. decodes_to (decode_card_from_uint32 (encode_uint32 (card n k))) (card n k))
          5)
      15
    ≡ true
unfolding passes_on decodes_to encode_uint32 decode_card_from_uint32
round_trip_table = refl

-- Decoding the packed form of a card of the game gives the card back.
pub decode-encode : (c : Card) → InRange c → decode_card_from_uint32 (encode_uint32 c) ≡ ok c
decode-encode c (hn, hc) =
    decodes_to_sound _ c
      (passes_on-at _ 5 c.color hc (passes_on-at _ 15 c.number hn round_trip_table))

-- What decoding returns is a card of the game, whatever the word is.
pub decode-InRange : (x : ℕ) (c : Card) → decode_card_from_uint32 x ≡ ok c → InRange c
unfolding decode_card_from_uint32
decode-InRange x c e = ground arith

-- Two cards of the game with the same hash are the same card.
pub hash_injective : (c d : Card) → InRange c → InRange d → hash c ≡ hash d → c ≡ d
unfolding hash
hash_injective c d hc hd e = ground (arith, decode-encode c hc, decode-encode d hd)
