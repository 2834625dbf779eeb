-- ===== src/Table/Refusals.antt =====
-- Decisions that are refused: the error, and that the game stays as it was.
use uknow.Prelude.{
  ℕ, ◌≡◌, refl, ◌≢◌, ◌⊎◌, inl, inr, Bool, true, false, ◌||◌, String, Option, none, some, Outcome,
  ok, err, panic, arith, if◌then◌else◌, lookup, ◌==◌, count,
}
use uknow.Card.{Card, is_equal, is_wild}
use uknow.Deck.{Deck, Sorter, find_card, find_from, top}
use uknow.Deck.Counts.{removes, count-remove}
use uknow.Table.{
  Table, TableState, TableError, Reason, PlayerDecision, PlayerDecisionKind, state_eq,
  start_of_turn, awaiting_drop_or_pass, awaiting_wild_card_color_decision,
  awaiting_wild_draw4_card_color_decision, awaiting_wild_draw4_challenge_decision, pull_from_deck,
  play_hand_card, pass, wild_card_choose_color, do_challenge, dont_challenge, unknown_kind,
  eval_decision, err_already_drew_card, err_pass_without_draw_or_drop, err_invalid_decision,
  err_unexpected_decision, err_card_not_in_hand, err_unknown_player, illegal_play,
}
use uknow.Table.Game.{Game, run}
use uknow.Table.Play.{check_play, played, try_play_card}
use uknow.Table.Decide.{
  eval_pull, eval_pass, eval_play, eval_choose_color, eval_do_challenge, eval_dont_challenge,
  eval_kind, eval_player_decision,
}

-- Which kinds of decision are expected in a state.
abbrev pub accepts : TableState → PlayerDecisionKind → Bool
accepts st pull_from_deck = state_eq st start_of_turn
accepts st pass = state_eq st awaiting_drop_or_pass
accepts st play_hand_card = state_eq st start_of_turn || state_eq st awaiting_drop_or_pass
accepts st wild_card_choose_color =
    state_eq st awaiting_wild_card_color_decision
    || state_eq st awaiting_wild_draw4_card_color_decision
accepts st do_challenge = state_eq st awaiting_wild_draw4_challenge_decision
accepts st dont_challenge = state_eq st awaiting_wild_draw4_challenge_decision
accepts st (unknown_kind k) = true

-- The reason given for a kind of decision that is not expected.
abbrev pub refusal : PlayerDecisionKind → Reason
refusal pull_from_deck = err_already_drew_card
refusal pass = err_pass_without_draw_or_drop
refusal play_hand_card = err_invalid_decision
refusal _ = err_unexpected_decision

eval_kind-refused :
    (s : Sorter) (name : String) (d : PlayerDecision) (k : PlayerDecisionKind) (g : Game)
    → accepts g.table.table_state k ≡ false
    → eval_kind s name d k g ≡ (err (eval_decision d (refusal k)), g)
unfolding run eval_pull eval_pass eval_play eval_choose_color eval_do_challenge eval_dont_challenge
eval_kind-refused s name d pull_from_deck g e = rw e
eval_kind-refused s name d pass g e = rw e
eval_kind-refused s name d play_hand_card g e = rw e
eval_kind-refused s name d wild_card_choose_color g e = rw e
eval_kind-refused s name d do_challenge g e = rw e
eval_kind-refused s name d dont_challenge g e = rw e
eval_kind-refused s name d (unknown_kind k) g e = cc

-- A decision of a kind that the state of the table does not expect is refused with the reason for
-- its kind, and neither the table nor what was sent changes.
pub eval_player_decision-refused :
    (s : Sorter) (name : String) (d : PlayerDecision) (g : Game)
    → accepts g.table.table_state d.kind ≡ false
    → eval_player_decision s name d g ≡ (err (eval_decision d (refusal d.kind)), g)
unfolding eval_player_decision
eval_player_decision-refused s name d g e = eval_kind-refused s name d d.kind g e

-- A card that may be played: a wild one, or one that matches the required color or number.
abbrev pub matches : Table → Card → Bool
matches t c =
    is_wild c
    || (c.color == t.required_color_of_current_turn
        || c.number == t.required_number_of_current_turn)

-- The checks before a play, written as one case distinction.
abbrev pub verdict : Table → String → Card → Option Deck → Outcome TableError (Unit {0})
verdict t name c none = err (eval_decision (played c) (err_unknown_player name))
verdict t name c (some hand) =
    if count (is_equal c) hand == 0
    then err (eval_decision (played c) err_card_not_in_hand)
    else elim (top t.discarded_pile) [
      | ok pile_top ↦
          if matches t c
          then ok tt
          else err (
              eval_decision (played c)
                (illegal_play c t.required_color_of_current_turn pile_top.number))
      | err e ↦ panic
      | panic ↦ panic
    ]

found_or_absent :
    (d : Deck) (c : Card)
    → ((count (is_equal c) d ≡ 0) × (find_from 0 d c ≡ none))
      ⊎ ((i : ℕ) × (find_from 0 d c ≡ some i) × (count (is_equal c) d ≢ 0))
found_or_absent d c = elim (removes d c) [
  | inl absent ↦ inl absent
  | inr (i, e, at, _) ↦ inr (i, e, λ z. ground (arith, count-remove (is_equal c) d i c at))
]

check_play-verdict :
    (name : String) (c : Card) (g : Game) (hand : Option Deck)
    → lookup name g.table.hand_of_player ≡ hand
    → check_play name c g ≡ (verdict g.table name c hand, g)
unfolding run check_play find_card
check_play-verdict name c g none e = ground arith
check_play-verdict name c g (some hand) e = elim (found_or_absent hand c) [
  | inl (z, f) ↦ ground (arith, z, f)
  | inr (i, f, z) ↦ ground (arith, z, f)
]

-- A play by a name with no hand, of a card that is not in the hand, or of a card that matches
-- neither the required number nor the required color and is not wild, is refused with its reason,
-- in this order, and neither the table nor what was sent changes.
pub eval_play-refused :
    (s : Sorter) (name : String) (d : PlayerDecision) (g : Game) (e : TableError)
    → d.kind ≡ play_hand_card
    → accepts g.table.table_state play_hand_card ≡ true
    → verdict g.table name d.result_card (lookup name g.table.hand_of_player) ≡ err e
    → eval_player_decision s name d g ≡ (err e, g)
unfolding run eval_player_decision eval_play try_play_card
eval_play-refused s name d g e k a v =
    ground
      (arith, check_play-verdict name d.result_card g (lookup name g.table.hand_of_player) refl)
