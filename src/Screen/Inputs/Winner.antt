-- ===== src/Screen/Inputs/Winner.antt =====
-- player_client_ui.go: what a win ends, and which commands go where.
use uknow.Prelude.{
  ◌≡◌, refl, ◌∙◌, Bool, true, false, String, Option, none, some, Outcome, ok, err, panic, ◌>>=◌,
  arith, if◌then◌else◌, length,
}
use uknow.Prelude.Int.{ℤ, pos}
use uknow.Deck.{Sorter}
use uknow.Event.{
  GameEvent, CardTransferEvent, card_transfer, skip_card_action, draw_two_card_action,
  reverse_card_action, awaiting_wild_card_color_decision, challenger_success, challenger_failed,
  awaiting_play_or_pass, player_passed_turn, player_has_won, required_color_updated,
}
use uknow.Table.{Table, hand_of}
use uknow.Client.{UiCommandAskUserForDecision}
use uknow.Screen.{
  ClientUi, Deadlock, append_event_log_no_lock, append_command_prompt, backspace_command_prompt,
  reset_command_prompt, we_have_a_winner,
}
use uknow.Screen.Hands.{
  update_player_hand_widget, refresh_discard_pile_cells, add_to_hand_count_chart,
  sort_hand_count_chart_by_turn, init_table_elements, leave_source, reach_sink,
  handle_card_transfer_event,
}
use uknow.Screen.Inputs.{
  Words, Key, remember_command, handle_command_input, handle_key, handle_ask,
  handle_decision_result, finish_asking, set_turn_based_title, handle_game_event,
  handle_served_cards, ctrl_c, enter, space, backspace, up, down, typed, named,
}

-- The state and the decisions that were sent are the same.
pub record Quiet (u v : ClientUi) : Type 0 where
  pub state : v.ui_state ≡ u.ui_state
  pub decisions : v.decision_commands ≡ u.decision_commands

Quiet-refl : (u : ClientUi) → Quiet u u
Quiet-refl u = record { state = refl; decisions = refl }

Quiet-trans : {u v w : ClientUi} → Quiet u v → Quiet v w → Quiet u w
Quiet-trans a b = record { state = b.state ∙ a.state; decisions = b.decisions ∙ a.decisions }

append_event_log-Quiet : (s : String) (u : ClientUi) → Quiet u (append_event_log_no_lock s u)
unfolding append_event_log_no_lock
append_event_log-Quiet s u = record { state = refl; decisions = refl }

-- Every result of the call is quiet.
record Quietly (u : ClientUi) (r : Outcome Deadlock ClientUi) : Type 0 where
  pub at : (v : ClientUi) → r ≡ ok v → Quiet u v

Quietly-ok : (u v : ClientUi) → Quiet u v → Quietly u (ok v)
Quietly-ok u v q = record { at = λ w e. ground (arith, e, q.state, q.decisions) }

Quietly-panic : (u : ClientUi) → Quietly u panic
Quietly-panic u = record { at = λ w e. ground (arith, e) }

Quietly-err : (u : ClientUi) (x : Deadlock) → Quietly u (err x)
Quietly-err u x = record { at = λ w e. ground (arith, e) }

Quietly-bind :
    {A : Type 0} {u : ClientUi} (r : Outcome Deadlock A) (f : A → Outcome Deadlock ClientUi)
    → ((a : A) → r ≡ ok a → Quietly u (f a))
    → Quietly u (r >>= f)
Quietly-bind (ok a) f k = k a refl
Quietly-bind (err x) f k = Quietly-err _ x
Quietly-bind panic f k = Quietly-panic _

Quietly-from :
    {u v : ClientUi} {r : Outcome Deadlock ClientUi} → Quiet u v → Quietly v r → Quietly u r
Quietly-from q k = record { at = λ w e. Quiet-trans q (k.at w e) }

chart-Quiet : (name : String) (k : ℤ) (u : ClientUi) → Quiet u (add_to_hand_count_chart name k u)
unfolding add_to_hand_count_chart append_event_log_no_lock
chart-Quiet name k u = record { state = ground arith; decisions = ground arith }

widget-Quietly : (u : ClientUi) → Quietly u (update_player_hand_widget u)
unfolding update_player_hand_widget
widget-Quietly u = record {
  at = λ w e. record { state = ground (arith, e); decisions = ground (arith, e) };
}

refresh-Quietly : (u : ClientUi) → Quietly u (refresh_discard_pile_cells u)
unfolding refresh_discard_pile_cells
refresh-Quietly u = record {
  at = λ w e. record { state = ground (arith, e); decisions = ground (arith, e) };
}

chart_by_turn-Quietly : (t : Table) (u : ClientUi) → Quietly u (sort_hand_count_chart_by_turn t u)
unfolding sort_hand_count_chart_by_turn append_event_log_no_lock
chart_by_turn-Quietly t u = record {
  at = λ w e. record { state = ground (arith, e); decisions = ground (arith, e) };
}

-- The first half of the handler of transfers.
record Halfway (u : ClientUi) (r : Outcome Deadlock (Bool × ClientUi)) : Type 0 where
  pub at : (x : Bool × ClientUi) → r ≡ ok x → Quiet u x.1

leave_source-Halfway :
    (ev : CardTransferEvent) (local : String) (u : ClientUi) → Halfway u (leave_source ev local u)
unfolding leave_source update_player_hand_widget add_to_hand_count_chart append_event_log_no_lock
leave_source-Halfway ev local u = record {
  at = λ x e. record { state = ground (arith, e); decisions = ground (arith, e) };
}

reach_sink-Quietly :
    (s : Sorter) (ev : CardTransferEvent) (local : String) (u : ClientUi)
    → Quietly u (reach_sink s ev local u)
unfolding reach_sink update_player_hand_widget add_to_hand_count_chart append_event_log_no_lock
    refresh_discard_pile_cells
reach_sink-Quietly s ev local u = record {
  at = λ x e. record { state = ground (arith, e); decisions = ground (arith, e) };
}

transfer_rest :
    (s : Sorter) (ev : CardTransferEvent) (local : String) (u : ClientUi)
    (r : Outcome Deadlock (Bool × ClientUi))
    → Halfway u r
    → Quietly u (r >>= λ x. if x.0 then reach_sink s ev local x.1 else ok x.1)
transfer_rest s ev local u (ok (true, v)) h =
    Quietly-from (h.at (true, v) refl) (reach_sink-Quietly s ev local v)
transfer_rest s ev local u (ok (false, v)) h = Quietly-ok u v (h.at (false, v) refl)
transfer_rest s ev local u (err x) h = Quietly-err u x
transfer_rest s ev local u panic h = Quietly-panic u

transfer-Quietly :
    (s : Sorter) (ev : CardTransferEvent) (local : String) (u : ClientUi)
    → Quietly u (handle_card_transfer_event s ev local u)
unfolding handle_card_transfer_event
transfer-Quietly s ev local u =
    Quietly-from (append_event_log-Quiet _ u)
      (transfer_rest s ev local _ (leave_source ev local _) (leave_source-Halfway ev local _))

same_state :
    {u v w : ClientUi}
    → Quiet u v
    → w.ui_state ≡ v.ui_state
    → w.decision_commands ≡ v.decision_commands
    → Quiet u w
same_state q e e' = record { state = e ∙ q.state; decisions = e' ∙ q.decisions }

init-Quietly :
    (s : Sorter) (t : Table) (local : String) (u : ClientUi)
    → Quietly u (init_table_elements s t local u)
unfolding init_table_elements
init-Quietly s t local u = Quietly-bind (sort_hand_count_chart_by_turn t u) _ λ v e.
    let filled = record v {
      draw_deck_percent = pos (length t.draw_deck);
      discard_pile = t.discarded_pile;
    } in
    Quietly-from {v = filled} (same_state ((chart_by_turn-Quietly t u).at v e) refl refl) (
      Quietly-bind (refresh_discard_pile_cells filled) _ λ w e'.
        let held = record w { player_hand = s.sort_deck (hand_of local t) } in
        Quietly-from {v = held} (same_state ((refresh-Quietly filled).at w e') refl refl)
          (widget-Quietly held))

-- What the user interface takes in: a key, a question, the answer to a decision, the end of a
-- question, an event of the game, the served cards, a line for the log.
pub data UiStep (s : Sorter) (w : Words) (local : String) : ClientUi → ClientUi → Type 0 where
  key : {u v : ClientUi} (k : Key) → handle_key w local k u ≡ ok v → UiStep s w local u v
  question :
      {u : ClientUi} (ask : UiCommandAskUserForDecision) → UiStep s w local u (handle_ask ask u).1
  result :
      {u : ClientUi} (text : Option String) → UiStep s w local u (handle_decision_result text u)
  finished :
      {u : ClientUi} (ask : UiCommandAskUserForDecision) → UiStep s w local u (finish_asking ask u)
  event :
      {u v : ClientUi} (ev : GameEvent)
      → handle_game_event s ev local u ≡ ok v
      → UiStep s w local u v
  dealt :
      {u v : ClientUi} (t : Table) → handle_served_cards s t local u ≡ ok v → UiStep s w local u v
  logged : {u : ClientUi} (text : String) → UiStep s w local u (append_event_log_no_lock text u)

command_input-won :
    (w : Words) (name : String) (u v : ClientUi)
    → u.ui_state ≡ we_have_a_winner
    → handle_command_input w name u ≡ ok v
    → Quiet u v
unfolding handle_command_input remember_command append_event_log_no_lock reset_command_prompt
command_input-won w name u v h e = record {
  state = ground (arith, e, h);
  decisions = ground (arith, e, h);
}

key-won :
    (w : Words) (name : String) (k : Key) (u v : ClientUi)
    → u.ui_state ≡ we_have_a_winner
    → handle_key w name k u ≡ ok v
    → Quiet u v
unfolding handle_key append_command_prompt backspace_command_prompt reset_command_prompt
key-won w name enter u v h e = command_input-won w name u v h e
key-won w name ctrl_c u v h e = record { state = ground (arith, e); decisions = ground (arith, e) }
key-won w name space u v h e = record { state = ground (arith, e); decisions = ground (arith, e) }
key-won w name backspace u v h e = record {
  state = ground (arith, e);
  decisions = ground (arith, e);
}
key-won w name up u v h e = record { state = ground (arith, e); decisions = ground (arith, e) }
key-won w name down u v h e = record { state = ground (arith, e); decisions = ground (arith, e) }
key-won w name (typed t) u v h e = record {
  state = ground (arith, e);
  decisions = ground (arith, e);
}
key-won w name (named t) u v h e = record {
  state = ground (arith, e);
  decisions = ground (arith, e);
}

question-won :
    (ask : UiCommandAskUserForDecision) (u : ClientUi)
    → u.ui_state ≡ we_have_a_winner
    → Quiet u (handle_ask ask u).1
unfolding handle_ask append_event_log_no_lock
question-won ask u h = record { state = ground (arith, h); decisions = ground (arith, h) }

result-Quiet : (text : Option String) (u : ClientUi) → Quiet u (handle_decision_result text u)
unfolding handle_decision_result
result-Quiet none u = Quiet-refl u
result-Quiet (some text) u = append_event_log-Quiet text u

finished-won :
    (ask : UiCommandAskUserForDecision) (u : ClientUi)
    → u.ui_state ≡ we_have_a_winner
    → Quiet u (finish_asking ask u)
unfolding finish_asking append_event_log_no_lock
finished-won ask u h = record { state = ground (arith, h); decisions = ground (arith, h) }

event-won :
    (s : Sorter) (ev : GameEvent) (local : String) (u v : ClientUi)
    → u.ui_state ≡ we_have_a_winner
    → handle_game_event s ev local u ≡ ok v
    → Quiet u v
unfolding handle_game_event append_event_log_no_lock set_turn_based_title
event-won s (card_transfer x) local u v h e = (transfer-Quietly s x local u).at v e
event-won s (player_has_won x) local u v h e = record {
  state = ground (arith, e, h);
  decisions = ground (arith, e);
}
event-won s (required_color_updated x) local u v h e = record {
  state = ground (arith, e);
  decisions = ground (arith, e);
}
event-won s (awaiting_wild_card_color_decision x) local u v h e = record {
  state = ground (arith, e);
  decisions = ground (arith, e);
}
event-won s (challenger_success x) local u v h e = record {
  state = ground (arith, e);
  decisions = ground (arith, e);
}
event-won s (challenger_failed x) local u v h e = record {
  state = ground (arith, e);
  decisions = ground (arith, e);
}
event-won s (awaiting_play_or_pass x) local u v h e = record {
  state = ground (arith, e);
  decisions = ground (arith, e);
}
event-won s (player_passed_turn x) local u v h e = record {
  state = ground (arith, e);
  decisions = ground (arith, e);
}
event-won s (skip_card_action x) local u v h e = record {
  state = ground (arith, e);
  decisions = ground (arith, e);
}
event-won s (draw_two_card_action x) local u v h e = record {
  state = ground (arith, e);
  decisions = ground (arith, e);
}
event-won s (reverse_card_action x) local u v h e = record {
  state = ground (arith, e);
  decisions = ground (arith, e);
}

dealt-Quietly :
    (s : Sorter) (t : Table) (local : String) (u : ClientUi)
    → Quietly u (handle_served_cards s t local u)
unfolding handle_served_cards
dealt-Quietly s t local u =
    let started = record (append_event_log_no_lock "Received UICommandSetServedCards" u) {
      draw_deck_percent = pos (length t.draw_deck);
    } in
    Quietly-from {v = started}
      (same_state (append_event_log-Quiet "Received UICommandSetServedCards" u) refl refl)
      (init-Quietly s t local started)

-- Once a player has won, nothing that the user interface takes in changes that, and no decision of
-- the user is sent to the client any more.
pub UiStep-won :
    {s : Sorter} {w : Words} {local : String} {u v : ClientUi}
    → UiStep s w local u v
    → u.ui_state ≡ we_have_a_winner
    → Quiet u v
UiStep-won (key k e) h = key-won _ _ k _ _ h e
UiStep-won (question ask) h = question-won ask _ h
UiStep-won (result text) h = result-Quiet text _
UiStep-won (finished ask) h = finished-won ask _ h
UiStep-won (event ev e) h = event-won _ ev _ _ _ h e
UiStep-won (dealt t e) h = (dealt-Quietly _ t _ _).at _ e
UiStep-won (logged text) h = append_event_log-Quiet text _
