-- ===== src/Client/Replay.antt =====
-- The decisions that the client posts, evaluated from the table before the turn.
pub mod Turns
use uknow.Prelude.{
  ◌≤◌, ◌≡◌, refl, sym, ap, ◌∙◌, Bool, true, false, String, List, [], ◌∷◌, ◌++◌, Option, none, some,
  Outcome, ok, err, panic, arith, length,
}
use mathlib.Core.Path.{subst}
use mathlib.Core.List.{append-nil, append_assoc}
use uknow.Deck.{Sorter}
use uknow.Event.{GameEvent}
use uknow.Table.{Table, TableError, PlayerDecision, do_challenge, dont_challenge}
use uknow.Table.Game.{Game, run}
use uknow.Table.Rules.{Keeps}
use uknow.Table.Eval.{pull_card}
use uknow.Table.Play.{drop_card, need_more_user_decision_to_finish_turn}
use uknow.Table.Decide.{eval_player_decision, eval_player_decisions}
use uknow.Table.Stable.{Stable}
use uknow.Table.Stable.Decisions.{eval_player_decision-keeps, eval_player_decisions-keeps}
use uknow.Table.Local.{Agrees, owned_by}
use uknow.Table.Local.Decisions.{eval_player_decision-Agrees}
use uknow.Table.Failures.Decisions.{is_about_challenge, eval_player_decision-undone}
use uknow.Table.Repeating.{Repeats, eval_player_decision-Repeats}
use uknow.Repl.{ReplCommand, ReplCommandKind, cmd_challenge, cmd_no_challenge}
use uknow.Client.{Client, ClientError, table_error}
use uknow.Client.Asking.{
  decide, decision_for, eval_repl_command_on_table, run_decision, answer, run_commands,
  table_outcome,
}

-- Whose copy of the table it is.
abbrev pub OwnedBy : String → Table → Type 0
OwnedBy owner t = t.local_player_name ≡ owner

pull-OwnedBy :
    (owner : String) (s : Sorter) (name : String) (b : Bool)
    → Keeps (OwnedBy owner) (pull_card s name b)
unfolding pull_card
pull-OwnedBy owner s name b = record { at = λ g h. ground arith }

drop-OwnedBy : (owner name : String) (c : _) → Keeps (OwnedBy owner) (drop_card name c)
unfolding drop_card
drop-OwnedBy owner name c = record { at = λ g h. ground arith }

pub OwnedBy-Stable : (owner : String) (s : Sorter) → Stable s (OwnedBy owner)
OwnedBy-Stable owner s = record {
  state = λ st e t h. h;
  color = λ c t h. h;
  number = λ k t h. h;
  before_wild4 = λ t h. h;
  winner = λ name t h. h;
  next = λ name t h. h;
  reverse = λ t h. h;
  pull = pull-OwnedBy owner s;
  drop = drop-OwnedBy owner;
}

-- The decisions succeed at the first table, whatever was sent before, and leave the second one.
pub record Replays (s : Sorter) (name : String) (t : Table) (ds : List PlayerDecision) (u : Table)
    : Type 0 where
  pub succeeds :
      (es : List GameEvent)
      → (eval_player_decisions s name ds (record { table = t; sent = es })).0 ≡ ok tt
  pub leaves :
      (es : List GameEvent)
      → (eval_player_decisions s name ds (record { table = t; sent = es })).1.table ≡ u

pub Replays-nil : (s : Sorter) (name : String) (t : Table) → Replays s name t [] t
unfolding run eval_player_decisions
Replays-nil s name t = record { succeeds = λ es. refl; leaves = λ es. refl }

eval_player_decisions-cons :
    (s : Sorter) (name : String) (d d' : PlayerDecision) (ds : List PlayerDecision) (g : Game)
    → (eval_player_decision s name d g).0 ≡ ok d'
    → eval_player_decisions s name (d ∷ ds) g
      ≡ eval_player_decisions s name ds (eval_player_decision s name d g).1
unfolding run eval_player_decisions
eval_player_decisions-cons s name d d' ds g e = ground (arith, e)

-- What was sent before does not matter.
eval_player_decision_sent :
    (s : Sorter) (name : String) (d : PlayerDecision) (t : Table) (es es' : List GameEvent)
    → let g = eval_player_decision s name d (record { table = t; sent = es }) in
      let h = eval_player_decision s name d (record { table = t; sent = es' }) in
      (h.0 ≡ g.0) × (h.1.table ≡ g.1.table)
eval_player_decision_sent s name d t es es' =
    let g : Game = record { table = t; sent = es } in
    let h : Game = record { table = t; sent = es' } in
    let (q, e) = (eval_player_decision-Agrees s {owner = t.local_player_name} name d).at g h refl in
    let kept =
      (eval_player_decision-keeps (OwnedBy-Stable t.local_player_name s) name d).at g refl in
    (q, e ∙ ap (λ o. owned_by o (eval_player_decision s name d g).1.table) (sym kept))

pub Replays-at :
    (s : Sorter) (name : String) (t u : Table) (ds : List PlayerDecision) (g : Game)
    → g.table ≡ t
    → Replays s name t ds u
    → ((eval_player_decisions s name ds g).0 ≡ ok tt)
      × ((eval_player_decisions s name ds g).1.table ≡ u)
Replays-at s name t u ds g e r =
    let r' = subst (λ v. Replays s name v ds u) (sym e) r in (r'.succeeds g.sent, r'.leaves g.sent)

pub Replays-cons :
    (s : Sorter) (name : String) (t u : Table) (d d' : PlayerDecision) (ds : List PlayerDecision)
    (es : List GameEvent)
    → (eval_player_decision s name d (record { table = t; sent = es })).0 ≡ ok d'
    → Replays s name (eval_player_decision s name d (record { table = t; sent = es })).1.table ds u
    → Replays s name t (d' ∷ ds) u
Replays-cons s name t u d d' ds es e rest = record {
  succeeds = λ fs. rw (opened fs) (there fs).0;
  leaves = λ fs. rw (opened fs) (there fs).1;
}
  where
    again : Repeats s name d d' (record { table = t; sent = es })
    again = eval_player_decision-Repeats s name d d' (record { table = t; sent = es }) e

    first : (fs : List GameEvent) → Game
    first fs = (eval_player_decision s name d' (record { table = t; sent = fs })).1

    opened :
        (fs : List GameEvent)
        → eval_player_decisions s name (d' ∷ ds) (record { table = t; sent = fs })
          ≡ eval_player_decisions s name ds (first fs)
    opened fs =
        eval_player_decisions-cons s name d' d' ds (record { table = t; sent = fs })
          ((eval_player_decision_sent s name d' t es fs).0 ∙ again.0)

    there :
        (fs : List GameEvent)
        → ((eval_player_decisions s name ds (first fs)).0 ≡ ok tt)
          × ((eval_player_decisions s name ds (first fs)).1.table ≡ u)
    there fs =
        Replays-at s name _ u ds (first fs)
          ((eval_player_decision_sent s name d' t es fs).1 ∙ ap (λ (g : Game). g.table) again.1)
          rest
