-- ===== src/Table/Challenge.antt =====
-- The WildDrawFour card and the challenge: what is remembered, and who draws four cards.
use mathlib.Core.Path.{subst}
use uknow.Prelude.{
  ℕ, ◌≤◌, ◌≡◌, refl, sym, ap, Bool, true, false, not, ◌&&◌, String, [], ◌∷◌, ok, arith,
  if◌then◌else◌, length, count, ◌==◌,
}
use uknow.Card.{Card, is_wild, number_wild_draw_four}
use uknow.Deck.{Deck, Sorter, is_empty}
use uknow.Table.{
  Table, TableState, PlayerDecision, hand_of, play_hand_card, wild_card_choose_color, do_challenge,
  start_of_turn, awaiting_wild_draw4_challenge_decision, set_player_of_next_turn,
}
use uknow.Table.Game.{Game, run}
use uknow.Table.Seats.{player_count}
use uknow.Table.Eval.{
  set_neighbor_as_next_player, set_required_color, eval_wild_draw_four_card,
  eval_played_action_card, is_local, set_state,
}
use uknow.Table.Play.{
  check_play, drop_card, finish_play, try_play_card, eval_played_card, check_if_player_has_won,
  is_legal,
}
use uknow.Table.Decide.{
  eval_play, eval_choose_color, choose_color_next, eval_player_decision, is_eligible, select,
  eval_kind, challenge_succeeds, challenge_fails, judge_challenge, eval_do_challenge,
}
use uknow.Table.Direction.{SeatOf, SitsAt, seat_after}
use uknow.Table.Turns.{set_neighbor_lem}
use uknow.Table.Draws.{Drawn, pull_cards-enough}

-- What a later challenge reads of the table.
abbrev Remembers : Table → Table → Type 0
Remembers t u =
    (u.required_color_of_current_turn ≡ t.required_color_of_current_turn)
    × (u.required_number_before_wild4 ≡ t.required_number_of_current_turn)

check_play-game : (name : String) (c : Card) (g : Game) → (check_play name c g).1 ≡ g
unfolding run check_play
check_play-game name c g = ground arith

drop_card-required :
    (name : String) (c : Card) (g : Game)
    → let u = (drop_card name c g).1.table in
      (u.required_color_of_current_turn ≡ g.table.required_color_of_current_turn)
      × (u.required_number_of_current_turn ≡ g.table.required_number_of_current_turn)
unfolding drop_card
drop_card-required name c g = ground arith

finish_wild4-Remembers :
    (s : Sorter) (name : String) (c : Card) (g : Game)
    → c.number ≡ number_wild_draw_four
    → Remembers g.table (finish_play s name c g).1.table
unfolding run finish_play eval_played_card eval_played_action_card eval_wild_draw_four_card
finish_wild4-Remembers s name c g e = ground arith

check_won-required :
    (name : String) (g : Game)
    → let u = (check_if_player_has_won name g).1.table in
      (u.required_color_of_current_turn ≡ g.table.required_color_of_current_turn)
      × (u.required_number_before_wild4 ≡ g.table.required_number_before_wild4)
unfolding run check_if_player_has_won
check_won-required name g = ground arith

try_wild4-Remembers :
    (s : Sorter) (name : String) (c : Card) (g : Game) (a : PlayerDecision)
    → c.number ≡ number_wild_draw_four
    → (try_play_card s name c g).0 ≡ ok a
    → Remembers g.table (try_play_card s name c g).1.table
unfolding run try_play_card
try_wild4-Remembers s name c g a e h = ground (
  arith,
  check_play-game name c g,
  drop_card-required name c (check_play name c g).1,
  finish_wild4-Remembers s name c (drop_card name c (check_play name c g).1).1,
)

play_wild4-Remembers :
    (s : Sorter) (name : String) (d : PlayerDecision) (g g' : Game) (a : PlayerDecision)
    → d.result_card.number ≡ number_wild_draw_four
    → eval_play s name d g ≡ (ok a, g')
    → Remembers g.table g'.table
unfolding run eval_play
play_wild4-Remembers s name d g g' a e h =
    let c = d.result_card in grind (arith, try_wild4-Remembers s name c g, check_won-required)

-- What a challenge reads after the color was chosen.
set_neighbor-required :
    (name : String) (st : TableState) (g : Game)
    → let u = (set_neighbor_as_next_player name st g).1.table in
      (u.required_color_of_last_turn ≡ g.table.required_color_of_last_turn)
      × (u.required_number_before_wild4 ≡ g.table.required_number_before_wild4)
unfolding run set_neighbor_as_next_player
set_neighbor-required name st g = ground arith

choose-required :
    (name : String) (d : PlayerDecision) (g g' : Game) (a : PlayerDecision)
    → eval_choose_color name d g ≡ (ok a, g')
    → (g'.table.required_color_of_last_turn ≡ g.table.required_color_of_current_turn)
      × (g'.table.required_number_before_wild4 ≡ g.table.required_number_before_wild4)
unfolding run eval_choose_color choose_color_next set_required_color
choose-required name d g g' a e = grind (arith, set_neighbor-required)

-- A player who plays a WildDrawFour and chooses a color is later judged by the table before the
-- play: the cards that make a challenge succeed are those that are not wild and that could have
-- been played legally instead.
pub challenge_judges_play :
    (s : Sorter) (name : String) (d e : PlayerDecision) (g g' g'' : Game) (a b : PlayerDecision)
    → d.kind ≡ play_hand_card
    → d.result_card.number ≡ number_wild_draw_four
    → e.kind ≡ wild_card_choose_color
    → eval_player_decision s name d g ≡ (ok a, g')
    → eval_player_decision s name e g' ≡ (ok b, g'')
    → (c : Card) → is_eligible g''.table c ≡ (not (is_wild c) && is_legal g.table c)
unfolding eval_player_decision
challenge_judges_play s name d e g g' g'' a b kd n ke play choose c =
    let p =
      play_wild4-Remembers s name d g g' a n
        (subst (λ k. eval_kind s name d k g ≡ (ok a, g')) kd play) in
    let q =
      choose-required name e g' g'' b
        (subst (λ k. eval_kind s name e k g' ≡ (ok b, g'')) ke choose) in
    ground (arith, p, q)

-- Who draws four cards after a challenge: the player of the last turn if there is a card in that
-- hand that makes the challenge succeed, and the challenger if there is none.
abbrev pub payer : Table → String → String
payer t name =
    if count (is_eligible t) (hand_of t.player_of_last_turn t) == 0
    then name
    else t.player_of_last_turn

is_empty-select : (p : Card → Bool) (d : Deck) → is_empty (select p d) ≡ (count p d == 0)
is_empty-select p [] = refl
is_empty-select p (c ∷ d) = ground (arith, is_empty-select p d)

Drawn-SeatOf :
    {payer name : String} {k i : ℕ} {t u : Table}
    → Drawn payer k t u
    → SeatOf t name i
    → SeatOf u name i
Drawn-SeatOf {name = name} {i = i} d seat =
    subst (λ x. SeatOf x name i) (sym d.rest)
      (record {
        directed = seat.directed;
        first = seat.first;
        index = seat.index;
        inside = seat.inside;
      })

Drawn-names :
    {payer : String} {k : ℕ} {t u : Table} → Drawn payer k t u → u.player_names ≡ t.player_names
Drawn-names d = ap (λ (x : Table). x.player_names) d.rest

fails-Drawn :
    (s : Sorter) (name : String) (g : Game)
    → 4 ≤ length g.table.draw_deck
    → ((challenge_fails s name g).0 ≡ ok tt)
      × Drawn name 4 g.table (challenge_fails s name g).1.table
unfolding run challenge_fails
fails-Drawn s name g h = pull_cards-enough s 4 name (is_local name g.table) _ h

succeeds-Drawn :
    (s : Sorter) (name : String) (g : Game)
    → 4 ≤ length g.table.draw_deck
    → ((challenge_succeeds s name g).0 ≡ ok tt)
      × Drawn g.table.player_of_last_turn 4 g.table (challenge_succeeds s name g).1.table
unfolding run challenge_succeeds
succeeds-Drawn s name g h =
    pull_cards-enough s 4 g.table.player_of_last_turn (is_local name g.table) _ h

judge-Drawn :
    (s : Sorter) (name : String) (g : Game)
    → 4 ≤ length g.table.draw_deck
    → ((judge_challenge s name g).0 ≡ ok tt)
      × Drawn (payer g.table name) 4 g.table (judge_challenge s name g).1.table
unfolding judge_challenge
judge-Drawn s name g h =
    rw (is_empty-select (is_eligible g.table) (hand_of g.table.player_of_last_turn g.table))
      (elim (count (is_eligible g.table) (hand_of g.table.player_of_last_turn g.table) == 0)
        as (λ b.
          (((if b then challenge_fails s name g else challenge_succeeds s name g).0 ≡ ok tt)
            × Drawn (if b then name else g.table.player_of_last_turn) 4 g.table
                (if b then challenge_fails s name g else challenge_succeeds s name g).1.table)) [
                  | true ↦ fails-Drawn s name g h
                  | false ↦ succeeds-Drawn s name g h
                ])

eval_challenge-judged :
    (s : Sorter) (name next : String) (i : ℕ) (d : PlayerDecision) (g : Game)
    → g.table.table_state ≡ awaiting_wild_draw4_challenge_decision
    → (judge_challenge s name g).0 ≡ ok tt
    → SeatOf (judge_challenge s name g).1.table name i
    → SitsAt
        (judge_challenge s name g).1.table
        (seat_after i (player_count (judge_challenge s name g).1.table))
        next
    → eval_do_challenge s name d g ≡ (
      ok d,
      record (judge_challenge s name g).1 {
        table =
            set_state start_of_turn
              (set_player_of_next_turn next (judge_challenge s name g).1.table);
      },
    )
unfolding run eval_do_challenge
eval_challenge-judged s name next i d g st done seat sits =
    ground
      (arith, set_neighbor_lem (judge_challenge s name g).1 name i next seat sits start_of_turn)

-- A challenge by the player at seat i with four cards in the draw deck: the payer draws four cards
-- and no other hand changes, then the turn goes to the player at the seat after i.
pub eval_do_challenge-pays :
    (s : Sorter) (name next : String) (i : ℕ) (d : PlayerDecision) (g : Game)
    → d.kind ≡ do_challenge
    → g.table.table_state ≡ awaiting_wild_draw4_challenge_decision
    → 4 ≤ length g.table.draw_deck
    → SeatOf g.table name i
    → SitsAt g.table (seat_after i (player_count g.table)) next
    → (u : Table) × Drawn (payer g.table name) 4 g.table u
      × ((eval_player_decision s name d g).0 ≡ ok d)
      × ((eval_player_decision s name d g).1.table
          ≡ set_state start_of_turn (set_player_of_next_turn next u))
unfolding eval_player_decision
eval_do_challenge-pays s name next i d g k st h seat sits =
    let (done, drawn) = judge-Drawn s name g h in
    let e =
      eval_challenge-judged s name next i d g st done (Drawn-SeatOf drawn seat)
        (rw (Drawn-names drawn) sits) in
    (
      (judge_challenge s name g).1.table,
      drawn,
      subst (λ k'. (eval_kind s name d k' g).0 ≡ ok d) (sym k) (ap (λ (x : _ × Game). x.0) e),
      subst
          (λ k'.
            (eval_kind s name d k' g).1.table
            ≡ set_state start_of_turn
                (set_player_of_next_turn next (judge_challenge s name g).1.table))
          (sym k) (ap (λ (x : _ × Game). x.1.table) e),
    )
