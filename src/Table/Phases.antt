-- ===== src/Table/Phases.antt =====
-- The states of the table as a transition relation, which every accepted decision follows.
use uknow.Prelude.{
  ℕ, zero, suc, ◌≡◌, ◌≢◌, ◌||◌, ◌⊎◌, inl, inr, refl, Bool, true, String, ok, arith, if◌then◌else◌,
  ◌==◌,
}
use uknow.Prelude.Int.{ℤ}
use uknow.Card.{Card, number_wild, number_wild_draw_four}
use uknow.Deck.{Sorter}
use uknow.Table.{
  TableState, PlayerDecision, PlayerDecisionKind, state_eq, start_of_turn, awaiting_drop_or_pass,
  awaiting_wild_card_color_decision, awaiting_wild_draw4_card_color_decision,
  awaiting_wild_draw4_challenge_decision, have_winner, pull_from_deck, play_hand_card, pass,
  wild_card_choose_color, do_challenge, dont_challenge, unknown_kind,
}
use uknow.Table.Game.{Game, M, run}
use uknow.Table.Eval.{
  is_local, pull_card, pull_cards, set_required_color, set_neighbor_as_next_player,
  set_next_player_skip_one, eval_skip_card, eval_draw_two_card, eval_reverse_card, eval_wild_card,
  eval_wild_draw_four_card, eval_played_action_card,
}
use uknow.Table.Play.{
  in_state, check_play, drop_card, eval_played_number_card, eval_played_card, finish_play,
  try_play_card, check_if_player_has_won,
}
use uknow.Table.Decide.{
  color_next_state, eval_pull, eval_pass, eval_play, choose_color_next, eval_choose_color,
  eval_do_challenge, eval_dont_challenge, eval_kind, eval_player_decision,
}

-- The state after a card was played.
abbrev pub played_state : Card → TableState
played_state c =
    if c.number == number_wild
    then awaiting_wild_card_color_decision
    else if c.number == number_wild_draw_four
    then awaiting_wild_draw4_card_color_decision
    else start_of_turn

-- The states from which a card may be played.
pub data MayPlay : TableState → Type 0 where
  at_start : MayPlay start_of_turn
  after_pull : MayPlay awaiting_drop_or_pass

-- What a decision of a kind does to the state.
pub data Moves (c : Card) : TableState → PlayerDecisionKind → TableState → Type 0 where
  pulls : Moves c start_of_turn pull_from_deck awaiting_drop_or_pass
  passes : Moves c awaiting_drop_or_pass pass start_of_turn
  plays : {st : TableState} → MayPlay st → Moves c st play_hand_card (played_state c)
  chooses : Moves c awaiting_wild_card_color_decision wild_card_choose_color start_of_turn
  chooses_draw4 :
      Moves c awaiting_wild_draw4_card_color_decision wild_card_choose_color
        awaiting_wild_draw4_challenge_decision
  challenges : Moves c awaiting_wild_draw4_challenge_decision do_challenge start_of_turn
  accepts_cards : Moves c awaiting_wild_draw4_challenge_decision dont_challenge start_of_turn

-- The call leaves the state as it is, however it ends.
abbrev SameState : {A : Type 0} → M A → Type 0
SameState m = (g : Game) → (m g).1.table.table_state ≡ g.table.table_state

-- If the call returns, the table is in the state.
abbrev EndsIn : {A : Type 0} → M A → TableState → Type 0
EndsIn {A} m st = (g : Game) (a : A) → (m g).0 ≡ ok a → (m g).1.table.table_state ≡ st

pub pull_card_state : (s : Sorter) (name : String) (b : Bool) → SameState (pull_card s name b)
unfolding pull_card
pull_card_state s name b g = ground arith

pull_cards_state :
    (s : Sorter) (k : ℕ) (name : String) (b : Bool) → SameState (pull_cards s k name b)
unfolding run pull_cards
pull_cards_state s zero name b g = refl
pull_cards_state s (suc k) name b g =
    ground (arith, pull_card_state s name b g, pull_cards_state s k name b (pull_card s name b g).1)

set_neighbor_state :
    (name : String) (st : TableState) → EndsIn (set_neighbor_as_next_player name st) st
unfolding run set_neighbor_as_next_player
set_neighbor_state name st g a e = ground arith

skip_one_state : (name : String) → SameState (set_next_player_skip_one name)
unfolding run set_next_player_skip_one
skip_one_state name g = ground arith

pub drop_card_state : (name : String) (c : Card) → SameState (drop_card name c)
unfolding drop_card
drop_card_state name c g = ground arith

check_play_state : (name : String) (c : Card) → SameState (check_play name c)
unfolding run check_play
check_play_state name c g = ground arith

check_won_state : (name : String) → SameState (check_if_player_has_won name)
unfolding run check_if_player_has_won
check_won_state name g = ground arith

eval_skip_card_state : (name : String) (c : Card) → EndsIn (eval_skip_card name c) start_of_turn
unfolding run eval_skip_card set_required_color
eval_skip_card_state name c g a e = ground arith

eval_draw_two_card_state :
    (s : Sorter) (name : String) (c : Card) → EndsIn (eval_draw_two_card s name c) start_of_turn
unfolding run eval_draw_two_card set_required_color
eval_draw_two_card_state s name c g a e = grind (arith, pull_cards_state)

eval_reverse_card_state :
    (name : String) (c : Card) → EndsIn (eval_reverse_card name c) start_of_turn
unfolding run eval_reverse_card set_required_color
eval_reverse_card_state name c g a e = ground arith

eval_number_card_state :
    (name : String) (c : Card) → EndsIn (eval_played_number_card name c) start_of_turn
unfolding run eval_played_number_card set_required_color
eval_number_card_state name c g a e = ground arith

eval_played_card_state :
    (s : Sorter) (name : String) (c : Card) → EndsIn (eval_played_card s name c) (played_state c)
unfolding run eval_played_card eval_played_action_card eval_wild_card eval_wild_draw_four_card
eval_played_card_state s name c g a e = ground (
  arith,
  eval_skip_card_state name c g a,
  eval_draw_two_card_state s name c g a,
  eval_reverse_card_state name c g a,
  eval_number_card_state name c g a,
)

finish_play_state :
    (s : Sorter) (name : String) (c : Card) → EndsIn (finish_play s name c) (played_state c)
unfolding run finish_play
finish_play_state s name c g a e = grind (arith, eval_played_card_state s name c)

try_play_card_state :
    (s : Sorter) (name : String) (c : Card) → EndsIn (try_play_card s name c) (played_state c)
unfolding run try_play_card
try_play_card_state s name c g a e = grind (arith, finish_play_state s name c)

choose_color_next_state :
    (name : String) (g : Game)
    → (choose_color_next name g).0 ≡ ok tt
    → (choose_color_next name g).1.table.table_state
      ≡ color_next_state (in_state awaiting_wild_card_color_decision g.table)
unfolding run choose_color_next
choose_color_next_state name g e = grind (arith, set_neighbor_state)

-- The state before and after a call that returns.
abbrev Takes : {A : Type 0} → M A → Game → TableState → TableState → Type 0
Takes {A} m g st st' =
    (g' : Game) (a : A)
    → m g ≡ (ok a, g')
    → (g.table.table_state ≡ st) × (g'.table.table_state ≡ st')

pull_Takes :
    (s : Sorter) (name : String) (d : PlayerDecision) (g : Game)
    → Takes (eval_pull s name d) g start_of_turn awaiting_drop_or_pass
unfolding run eval_pull
pull_Takes s name d g g' a e = ground (arith, pull_card_state s name (is_local name g.table) g)

pass_Takes :
    (name : String) (d : PlayerDecision) (g : Game)
    → Takes (eval_pass name d) g awaiting_drop_or_pass start_of_turn
unfolding run eval_pass
pass_Takes name d g g' a e = ground (arith, set_neighbor_state name start_of_turn g tt)

may_play :
    (st : TableState)
    → (state_eq st start_of_turn || state_eq st awaiting_drop_or_pass) ≡ true
    → MayPlay st
may_play start_of_turn e = at_start
may_play awaiting_drop_or_pass e = after_pull
may_play awaiting_wild_card_color_decision e = cc
may_play awaiting_wild_draw4_card_color_decision e = cc
may_play awaiting_wild_draw4_challenge_decision e = cc
may_play have_winner e = cc

play_Takes :
    (s : Sorter) (name : String) (d : PlayerDecision) (g g' : Game) (a : PlayerDecision)
    → eval_play s name d g ≡ (ok a, g')
    → MayPlay g.table.table_state × (g'.table.table_state ≡ played_state d.result_card)
unfolding run eval_play
play_Takes s name d g g' a e = (
  may_play g.table.table_state (ground arith),
  grind (arith, try_play_card_state s name d.result_card, check_won_state),
)

challenge_Takes :
    (s : Sorter) (name : String) (d : PlayerDecision) (g : Game)
    → Takes (eval_do_challenge s name d) g awaiting_wild_draw4_challenge_decision start_of_turn
unfolding run eval_do_challenge
challenge_Takes s name d g g' a e = grind (arith, set_neighbor_state)

dont_challenge_Takes :
    (s : Sorter) (name : String) (d : PlayerDecision) (g : Game)
    → Takes (eval_dont_challenge s name d) g awaiting_wild_draw4_challenge_decision start_of_turn
unfolding run eval_dont_challenge
dont_challenge_Takes s name d g g' a e = grind (arith, set_neighbor_state)

choose_Takes :
    (name : String) (d : PlayerDecision) (g g' : Game) (a : PlayerDecision)
    → eval_choose_color name d g ≡ (ok a, g')
    → ((g.table.table_state ≡ awaiting_wild_card_color_decision)
        × (g'.table.table_state ≡ start_of_turn))
      ⊎ ((g.table.table_state ≡ awaiting_wild_draw4_card_color_decision)
          × (g'.table.table_state ≡ awaiting_wild_draw4_challenge_decision))
unfolding run eval_choose_color set_required_color
choose_Takes name d g g' a e = grind (arith, choose_color_next_state name)

eval_kind-Moves :
    (s : Sorter) (name : String) (d : PlayerDecision) (k : PlayerDecisionKind) (g g' : Game)
    (a : PlayerDecision)
    → ((j : ℤ) → k ≢ unknown_kind j)
    → eval_kind s name d k g ≡ (ok a, g')
    → Moves d.result_card g.table.table_state k g'.table.table_state
eval_kind-Moves s name d pull_from_deck g g' a h e =
    let t = pull_Takes s name d g g' a e in rw (t.0, t.1) pulls
eval_kind-Moves s name d pass g g' a h e =
    let t = pass_Takes name d g g' a e in rw (t.0, t.1) passes
eval_kind-Moves s name d play_hand_card g g' a h e =
    let t = play_Takes s name d g g' a e in rw (t.1) (plays t.0)
eval_kind-Moves s name d wild_card_choose_color g g' a h e = elim (choose_Takes name d g g' a e) [
  | inl t ↦ rw (t.0, t.1) chooses
  | inr t ↦ rw (t.0, t.1) chooses_draw4
]
eval_kind-Moves s name d do_challenge g g' a h e =
    let t = challenge_Takes s name d g g' a e in rw (t.0, t.1) challenges
eval_kind-Moves s name d dont_challenge g g' a h e =
    let t = dont_challenge_Takes s name d g g' a e in rw (t.0, t.1) accepts_cards
eval_kind-Moves s name d (unknown_kind j) g g' a h e = absurd (h j refl)

-- A decision of one of the six kinds that is evaluated without an error takes the table from one
-- state to the next along the diagram of turns: the state before allows its kind, and the state
-- after is the one that its kind, and for a play the card, lead to.
pub eval_player_decision-Moves :
    (s : Sorter) (name : String) (d : PlayerDecision) (g g' : Game) (a : PlayerDecision)
    → ((j : ℤ) → d.kind ≢ unknown_kind j)
    → eval_player_decision s name d g ≡ (ok a, g')
    → Moves d.result_card g.table.table_state d.kind g'.table.table_state
unfolding eval_player_decision
eval_player_decision-Moves s name d g g' a h e = eval_kind-Moves s name d d.kind g g' a h e
