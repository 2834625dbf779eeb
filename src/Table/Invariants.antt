-- ===== src/Table/Invariants.antt =====
-- What no sequence of decisions changes or reaches.
use uknow.Prelude.{◌≡◌, refl, ◌≢◌, Bool, true, String, List, arith}
use uknow.Card.{Card}
use uknow.Deck.{Sorter}
use uknow.Table.{Table, TableState, PlayerDecision, have_winner}
use uknow.Table.Game.{Game}
use uknow.Table.Rules.{Keeps}
use uknow.Table.Eval.{pull_card}
use uknow.Table.Play.{drop_card}
use uknow.Table.Decide.{eval_player_decisions}
use uknow.Table.Direction.{IsDirection, neg-IsDirection}
use uknow.Table.Phases.{pull_card_state, drop_card_state}
use uknow.Table.Stable.{Stable, is_playing}
use uknow.Table.Stable.Decisions.{eval_player_decisions-keeps}

-- The table is not in the state `have_winner`.
abbrev pub IsOpen : Table → Type 0
IsOpen t = is_playing t.table_state ≡ true

IsOpen-Stable : (s : Sorter) → Stable s IsOpen
IsOpen-Stable s = record {
  state = λ st e t h. e;
  color = λ c t h. h;
  number = λ k t h. h;
  before_wild4 = λ t h. h;
  winner = λ name t h. h;
  next = λ name t h. h;
  reverse = λ t h. h;
  pull = λ name b. record { at = λ g h. rw (pull_card_state s name b g) h };
  drop = λ name c. record { at = λ g h. rw (drop_card_state name c g) h };
}

-- No sequence of decisions takes a table into the state HaveWinner, not even one in which a player
-- drops the last card.
pub have_winner_unreachable :
    (s : Sorter) (name : String) (ds : List PlayerDecision) (g : Game)
    → g.table.table_state ≢ have_winner
    → (eval_player_decisions s name ds g).1.table.table_state ≢ have_winner
have_winner_unreachable s name ds g h e =
    let kept = (eval_player_decisions-keeps (IsOpen-Stable s) name ds).at g (open_of _ h) in
    ground (arith, kept)
  where
    open_of : (st : TableState) → st ≢ have_winner → is_playing st ≡ true
    open_of st n = ground arith

-- The seats and the owner of the table are those of u, and the direction is 1 or -1.
pub record SeatedAs (u t : Table) : Type 0 where
  pub names : t.player_names ≡ u.player_names
  pub indices : t.index_of_player ≡ u.index_of_player
  pub owner : t.local_player_name ≡ u.local_player_name
  pub directed : IsDirection t.direction

pull-SeatedAs :
    (u : Table) (s : Sorter) (name : String) (b : Bool) → Keeps (SeatedAs u) (pull_card s name b)
unfolding pull_card
pull-SeatedAs u s name b = record { at = λ g h. ground arith }

drop-SeatedAs : (u : Table) (name : String) (c : Card) → Keeps (SeatedAs u) (drop_card name c)
unfolding drop_card
drop-SeatedAs u name c = record { at = λ g h. ground arith }

SeatedAs-Stable : (u : Table) (s : Sorter) → Stable s (SeatedAs u)
SeatedAs-Stable u s = record {
  state = λ st e t h. record {
    names = h.names;
    indices = h.indices;
    owner = h.owner;
    directed = h.directed;
  };
  color = λ c t h. record {
    names = h.names;
    indices = h.indices;
    owner = h.owner;
    directed = h.directed;
  };
  number = λ k t h. record {
    names = h.names;
    indices = h.indices;
    owner = h.owner;
    directed = h.directed;
  };
  before_wild4 = λ t h. record {
    names = h.names;
    indices = h.indices;
    owner = h.owner;
    directed = h.directed;
  };
  winner = λ name t h. record {
    names = h.names;
    indices = h.indices;
    owner = h.owner;
    directed = h.directed;
  };
  next = λ name t h. record {
    names = h.names;
    indices = h.indices;
    owner = h.owner;
    directed = h.directed;
  };
  reverse = λ t h. record {
    names = h.names;
    indices = h.indices;
    owner = h.owner;
    directed = neg-IsDirection h.directed;
  };
  pull = pull-SeatedAs u s;
  drop = drop-SeatedAs u;
}

-- No sequence of decisions, however it ends, changes the list of names, the index of a name or the
-- owner of the table, or makes the direction other than 1 or -1.
pub eval_player_decisions-SeatedAs :
    (s : Sorter) (name : String) (ds : List PlayerDecision) (g : Game)
    → IsDirection g.table.direction
    → SeatedAs g.table (eval_player_decisions s name ds g).1.table
eval_player_decisions-SeatedAs s name ds g d =
    (eval_player_decisions-keeps (SeatedAs-Stable g.table s) name ds).at g
      (record { names = refl; indices = refl; owner = refl; directed = d })
