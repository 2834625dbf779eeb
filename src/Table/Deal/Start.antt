-- ===== src/Table/Deal/Start.antt =====
-- A whole deal: the cards, the first card of the pile and the first player.
use uknow.Prelude.{
  ℕ, ◌+◌, ◌*◌, ◌≤◌, ◌<◌, ◌≡◌, refl, sym, ap, ◌≢◌, inl, inr, Bool, true, false, String, List, [],
  ◌∷◌, ◌++◌, some, ok, arith, lookup, lookup_or, str_eq, ◌==◌, if◌then◌else◌, length, count,
  count-append, length-append, get_elem?_in, get_elem?,
}
use mathlib.Core.Path.{subst}
use uknow.Prelude.Int.{pos, neg, is_negative}
use uknow.Card.{Card, is_wild, color_red, number_reverse}
use uknow.Deck.{Deck}
use uknow.Deck.Counts.{deck_cases}
use uknow.Table.{Table, hand_of, set_player_of_next_turn, set_required_number}
use uknow.Table.Seats.{player_count}
use uknow.Table.Cards.{count_cards}
use uknow.Table.Direction.{
  IsDirection, seat_after, seat_before, SitsAt, seat_after-lt, get_next_player_index-one,
  player_at-pos, neg-IsDirection,
}
use uknow.Table.Deal.{Rand, turn_up, require_top, start_turns, shuffle_deck_and_distribute}
use uknow.Table.Deal.Counts.{Dealt, shuffle_deck-Rearranges, distribute-Dealt}

-- The seat that is next to i in the direction of the table.
abbrev pub seat_next : Table → ℕ → ℕ
seat_next t i =
    if is_negative t.direction
    then seat_before i (player_count t)
    else seat_after i (player_count t)

seat_next-lt : (t : Table) (i : ℕ) → i < player_count t → seat_next t i < player_count t
seat_next-lt t i h = ground (arith, seat_after-lt i (player_count t) h)

-- The table after the first player is found.
abbrev started : Card → String → Table → Table
started c next t = record (set_required_number c.number (set_player_of_next_turn next t)) {
  player_of_last_turn = t.shuffler_name;
  is_shuffled = true;
}

start_turns_lem :
    (c : Card) (t : Table) (i : ℕ)
    → IsDirection t.direction
    → lookup t.shuffler_name t.index_of_player ≡ some i
    → i < player_count t
    → (next : String) × SitsAt t (seat_next t i) next × (start_turns c t ≡ ok (started c next t))
unfolding start_turns lookup_or
start_turns_lem c t i d e h =
    let (next, s) = get_elem?_in t.player_names (seat_next t i) (seat_next-lt t i h) in
    (
      next,
      s,
      ground (arith, e, get_next_player_index-one t i d h, player_at-pos t (seat_next t i) next s),
    )

require_top-IsDirection :
    (c : Card) (t : Table) → IsDirection t.direction → IsDirection (require_top c t).direction
unfolding require_top
require_top-IsDirection c t d =
    elim (c.number == number_reverse)
      as (λ b. IsDirection (if b then neg t.direction else t.direction)) [
        | true ↦ neg-IsDirection d
        | false ↦ d
      ]

turn_up_lem :
    (t : Table)
    → 0 < length t.draw_deck
    → (c : Card) × (r : Deck) × (t.draw_deck ≡ r ++ c ∷ [])
      × (turn_up t
          ≡ ok (c, record t { draw_deck = r; discarded_pile = t.discarded_pile ++ c ∷ [] }))
unfolding turn_up
turn_up_lem t h = elim (deck_cases t.draw_deck) [
  | inl e ↦ absurd (omega (arith, ap length e))
  | inr (c, r, et, _, _, er, ed) ↦ (c, r, ed, ground (arith, et, er))
]

-- The game can start: every player has k cards, one card is on the pile and required, no card was
-- lost, and the player next to the shuffler, who sits at seat i, is to play.
pub record Started (k : ℕ) (order : List String) (i : ℕ) (t u : Table) : Type 0 where
  pub deck : length u.draw_deck + k * length order + 1 ≡ length t.draw_deck
  pub hands : (name : String) → count (str_eq name) order ≢ 0 → length (hand_of name u) ≡ k
  pub cards : (p : Card → Bool) → count_cards p u ≡ count_cards p t
  pub top_card : Card
  pub pile : u.discarded_pile ≡ t.discarded_pile ++ top_card ∷ []
  pub number : u.required_number_of_current_turn ≡ top_card.number
  pub color :
      u.required_color_of_current_turn ≡ (if is_wild top_card then color_red else top_card.color)
  pub direction :
      u.direction ≡ (if top_card.number == number_reverse then neg t.direction else t.direction)
  pub next : SitsAt t (seat_next u i) u.player_of_next_turn
  pub last : u.player_of_last_turn ≡ t.shuffler_name

module _ (k : ℕ) (order : List String) (i : ℕ) (t : Table) (directed : IsDirection t.direction)
    (seat : lookup t.shuffler_name t.index_of_player ≡ some i) (inside : i < player_count t)
    (enough : k * length order < length t.draw_deck)
    (empty : (name : String) → count (str_eq name) order ≢ 0 → hand_of name t ≡ [])
    (once : (name : String) → count (str_eq name) order ≤ 1) where
  -- From the deal on, at a table of the same cards.
  module _ (d : Deck) (same : (p : Card → Bool) → count p d ≡ count p t.draw_deck)
      (same_length : length d ≡ length t.draw_deck) (u : Table)
      (dealt : Dealt k order (record t { draw_deck = d }) u) where
    left : 0 < length u.draw_deck
    left = omega (arith, dealt.deck)

    abbrev turned : Card → Deck → Table
    turned c r = record u { draw_deck = r; discarded_pile = u.discarded_pile ++ c ∷ [] }

    play_from :
        (c : Card) (r : Deck)
        → u.draw_deck ≡ r ++ c ∷ []
        → (v : Table) × (start_turns c (require_top c (turned c r)) ≡ ok v) × Started k order i t v
    unfolding require_top
    play_from c r e =
        let w = require_top c (turned c r) in
        let directed' : IsDirection w.direction =
          require_top-IsDirection c (turned c r)
            (subst (λ (x : Table). IsDirection x.direction) (sym dealt.rest) directed) in
        let seat' : lookup w.shuffler_name w.index_of_player ≡ some i =
          subst (λ (x : Table). lookup x.shuffler_name x.index_of_player ≡ some i) (sym dealt.rest)
            seat in
        let inside' : i < player_count w =
          subst (λ (x : Table). i < player_count x) (sym dealt.rest) inside in
        let (next, s, q) = start_turns_lem c w i directed' seat' inside' in
        (
          started c next w,
          q,
          record {
            deck = omega (arith, dealt.deck, ap length e, length-append r (c ∷ []), same_length);
            hands = dealt.hand;
            cards = λ p. omega (
              arith,
              dealt.cards empty once p,
              same p,
              ap (count p) e,
              count-append p r (c ∷ []),
              count-append p u.discarded_pile (c ∷ []),
            );
            top_card = c;
            pile = ap (λ (x : Table). x.discarded_pile ++ c ∷ []) dealt.rest;
            number = refl;
            color = refl;
            direction =
                ap
                  (λ (x : Table).
                    if c.number == number_reverse then neg x.direction else x.direction)
                  dealt.rest;
            next =
                subst (λ names. get_elem? names (seat_next w i) ≡ some next)
                  (ap (λ (x : Table). x.player_names) dealt.rest) s;
            last = ap (λ (x : Table). x.shuffler_name) dealt.rest;
          },
        )

  -- The whole deal, for a hand of one to twelve cards.
  pub shuffle_deck_and_distribute-Started :
      (r : Rand)
      → 0 < k
      → k ≤ 12
      → (u : Table) × (shuffle_deck_and_distribute r order (pos k) t ≡ ok u) × Started k order i t u
  unfolding shuffle_deck_and_distribute
  shuffle_deck_and_distribute-Started r positive small =
      let (d, ed, same, same_length) = shuffle_deck-Rearranges r t in
      let (u, eu, dealt) =
        distribute-Dealt k order (record t { draw_deck = d }) (omega (arith, same_length)) in
      let (c, rest, split, et) = turn_up_lem u (left d same same_length u dealt) in
      let (v, ev, start) = play_from d same same_length u dealt c rest split in
      (v, ground (arith, ed, eu, et, ev), start)
