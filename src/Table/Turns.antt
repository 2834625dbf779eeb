-- ===== src/Table/Turns.antt =====
-- What passing the turn and the action cards do to whose turn it is.
use uknow.Prelude.{ℕ, ◌≤◌, ◌<◌, ◌≡◌, ◌≢◌, String, [], ◌∷◌, ◌++◌, ok, arith, lookup_or}
use uknow.Prelude.Int.{pos, negsuc, neg}
use uknow.Card.{Card, card}
use uknow.Deck.{Sorter}
use uknow.Event.{player_passed_turn, reverse_card_action, skip_card_action, required_color_updated}
use uknow.Table.{
  Table, TableState, PlayerDecision, pass, set_player_of_next_turn, set_required_color_fields,
  set_required_number, start_of_turn, awaiting_drop_or_pass,
}
use uknow.Table.Game.{Game, run}
use uknow.Table.Seats.{player_count, get_next_player, get_next_player_index, player_index_from_name}
use uknow.Table.Eval.{
  is_local, index_of, set_state, set_neighbor_as_next_player, set_next_player_skip_one,
  set_required_color, eval_skip_card, eval_reverse_card,
}
use uknow.Table.Decide.{eval_pass, eval_player_decision}
use uknow.Table.Direction.{
  seat_after, seat_before, SeatOf, SitsAt, get_next_player_index-direction,
  get_next_player_index-one, player_at-pos, neg-IsDirection, seat_after-lt,
}

module _ (g : Game) (name : String) (i : ℕ) (next : String) (seat : SeatOf g.table name i)
    (neighbor : SitsAt g.table (seat_after i (player_count g.table)) next) where
  pub set_neighbor_lem :
      (st : TableState)
      → set_neighbor_as_next_player name st g
        ≡ (ok tt, record g { table = set_state st (set_player_of_next_turn next g.table) })
  unfolding run set_neighbor_as_next_player player_index_from_name
  set_neighbor_lem st = ground (
    arith,
    seat,
    get_next_player_index-direction g.table i seat.directed seat.inside,
    player_at-pos g.table _ next neighbor,
  )

  -- A pass by the player at seat i, when a card was drawn, gives the turn to the seat after i in the
  -- list of names, whatever the direction, tells so, and changes nothing else.
  pub eval-pass :
      (s : Sorter) (d : PlayerDecision)
      → d.kind ≡ pass
      → g.table.table_state ≡ awaiting_drop_or_pass
      → eval_player_decision s name d g ≡ (
        ok d,
        record g {
          table = set_state start_of_turn (set_player_of_next_turn next g.table);
          sent =
              g.sent
              ++ player_passed_turn (record {
                player = name;
                player_of_next_turn = next;
                is_from_local_client = is_local name g.table;
              })
                ∷ [];
        },
      )
  unfolding run eval_player_decision eval_pass
  eval-pass s d k e = ground (arith, set_neighbor_lem start_of_turn)

module _ (g : Game) (name : String) (i : ℕ) (seat : SeatOf g.table name i) (c : Card)
    (next : String) (neighbor : SitsAt g.table (seat_after i (player_count g.table)) next) where
  index_of-seat : index_of name g.table ≡ pos i
  unfolding lookup_or
  index_of-seat = rw (seat.index, lookup_or)

  -- The Reverse card flips the direction and gives the turn to the seat after the player's in the
  -- list of names: to the very player that its event reports as denied.
  pub eval_reverse_card_lem : eval_reverse_card name c g ≡ (
    ok tt,
    record g {
      table = set_required_number c.number (
          set_required_color_fields c.color (
            set_state start_of_turn (
              set_player_of_next_turn next
                (record g.table { direction = neg g.table.direction }))));
      sent =
          (g.sent ++ required_color_updated (record { new_color = c.color }) ∷ [])
          ++ reverse_card_action (record {
            player = name;
            denied_player = next;
            next_player = next;
            is_from_local_client = is_local name g.table;
          })
            ∷ [];
    },
  )
  unfolding run eval_reverse_card set_required_color
  eval_reverse_card_lem =
      let turned = record g.table { direction = neg g.table.direction } in
      ground (
        arith,
        index_of-seat,
        get_next_player_index-direction g.table i seat.directed seat.inside,
        get_next_player_index-direction turned i (neg-IsDirection seat.directed) seat.inside,
        player_at-pos turned _ next neighbor,
      )

module _ (g : Game) (name : String) (i : ℕ) (seat : SeatOf g.table name i) (skipped next : String)
    (after : SitsAt g.table (seat_after i (player_count g.table)) skipped)
    (after_that : SitsAt g.table
      (seat_after (seat_after i (player_count g.table)) (player_count g.table))
      next) where
  pub skip_one_lem :
      set_next_player_skip_one name g
      ≡ (ok (skipped, next), record g { table = set_player_of_next_turn next g.table })
  unfolding run set_next_player_skip_one
  skip_one_lem = ground (
    arith,
    index_of-seat g name i seat (card 0 0) skipped after,
    get_next_player_index-direction g.table i seat.directed seat.inside,
    get_next_player_index-direction g.table (seat_after i (player_count g.table)) seat.directed
        (seat_after-lt i (player_count g.table) seat.inside),
    player_at-pos g.table _ skipped after,
    player_at-pos g.table _ next after_that,
  )

  -- The Skip card passes over the player at the seat after, gives the turn to the one at the seat
  -- after that, and names both in its event; its color and number are required next.
  pub eval_skip_card_lem :
      (c : Card)
      → eval_skip_card name c g ≡ (
        ok tt,
        record g {
          table = set_required_number c.number (
              set_required_color_fields c.color
                (set_state start_of_turn (set_player_of_next_turn next g.table)));
          sent =
              (g.sent ++ required_color_updated (record { new_color = c.color }) ∷ [])
              ++ skip_card_action (record {
                player = name;
                skipped_player = skipped;
                next_player = next;
                is_from_local_client = is_local name g.table;
              })
                ∷ [];
        },
      )
  unfolding run eval_skip_card set_required_color
  eval_skip_card_lem c = ground (arith, skip_one_lem)

-- No name sits at two seats.
abbrev pub Distinct : Table → Type 0
Distinct t = (j k : ℕ) (name : String) → SitsAt t j name → SitsAt t k name → j ≡ k

get_next_player-back :
    (t : Table) (name : String) (i : ℕ) (before : String)
    → SeatOf t name i
    → t.direction ≡ negsuc 0
    → t.player_of_next_turn ≡ name
    → SitsAt t (seat_before i (player_count t)) before
    → get_next_player t (pos 1) ≡ ok before
unfolding get_next_player get_next_player_index
get_next_player-back t name i before seat reversed turn b = ground (
  arith,
  seat,
  get_next_player_index-one t i seat.directed seat.inside,
  player_at-pos t _ before b,
)

seats_differ : (i n : ℕ) → i < n → 3 ≤ n → seat_before i n ≢ seat_after i n
seats_differ i n h many e = ground arith

-- With the direction reversed and three players or more, the turn does not go where `GetNextPlayer`
-- says that it goes: passing gives it to the player that `GetNextPlayer` finds in the other
-- direction.
pub set_neighbor-ne-get_next_player :
    (g : Game) (name : String) (i : ℕ) (before after : String) (st : TableState)
    → SeatOf g.table name i
    → g.table.direction ≡ negsuc 0
    → g.table.player_of_next_turn ≡ name
    → 3 ≤ player_count g.table
    → Distinct g.table
    → SitsAt g.table (seat_before i (player_count g.table)) before
    → SitsAt g.table (seat_after i (player_count g.table)) after
    → (get_next_player g.table (pos 1) ≡ ok before)
      × ((set_neighbor_as_next_player name st g).1.table.player_of_next_turn ≡ after)
      × (before ≢ after)
set_neighbor-ne-get_next_player g name i before after st seat reversed turn many distinct b a = (
  get_next_player-back g.table name i before seat reversed turn b,
  rw (set_neighbor_lem g name i after seat a st),
  λ e. seats_differ i (player_count g.table) seat.inside many (distinct _ _ after (rw (← e) b) a),
)
