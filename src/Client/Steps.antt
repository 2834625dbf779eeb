-- ===== src/Client/Steps.antt =====
-- player_client_sse.go: the states of the client, whatever the server sends and the user types.
use uknow.Prelude.{
  some_of, ℕ, ◌≡◌, refl, sym, ◌∙◌, ◌≢◌, ◌⊎◌, Bool-cases, str_eq, inl, inr, Bool, String, List, [],
  ◌∷◌, some, arith,
}
use mathlib.Core.Path.{subst}
use uknow.Deck.{Sorter}
use uknow.Table.{Table, PlayerDecision}
use uknow.Repl.{ReplCommand}
use uknow.Admin.Server.{PlayerDecisionsRequest}
use uknow.Client.{
  Client, Response, in_client_state, is_waiting_for_cards, is_waiting_for_choice,
  is_waiting_for_sync, waiting_for_admin_to_serve_cards, waiting_for_admin_to_choose_player,
  asking_user_for_decision, waiting_for_decision_sync,
}
use uknow.Client.Asking.{run_commands, ask_and_run_user_decisions, ask, send_decisions}
use uknow.Client.Events.{
  ServerEvent, on_player_joined, on_served_cards, on_chosen_player, on_player_decisions_sync,
  on_server_event, note_each_player, player_joined, existing_players_list, served_cards,
  chosen_player, player_decisions_sync,
}
use uknow.Client.Commands.{Resolver, handle_general_command}
use uknow.Client.Untouched.{run_commands-Untouched}

-- What makes the client move.
pub data StepKind : Type 0 where
  connecting receiving asking commanding : StepKind

-- What a client does that is connected by the stream.
pub data ClientStep (s : Sorter) : StepKind → Client → Client → Type 0 where
  joins :
      {c : Client} (names : List String)
      → ClientStep s connecting c
          (in_client_state waiting_for_admin_to_serve_cards (note_each_player names c))
  receives :
      {c c' : Client} (taken : Bool) (ev : ServerEvent)
      → on_server_event s taken ev c ≡ some c'
      → ClientStep s receiving c c'
  asks :
      {c c' : Client} (commands : List ReplCommand) (counter : ℕ) (reply : Response)
      → ask_and_run_user_decisions s commands counter reply c ≡ some c'
      → ClientStep s asking c c'
  commanded :
      {c : Client} (resolve : Resolver) (command : ReplCommand)
      → ClientStep s commanding c (handle_general_command resolve command c)

-- How a step of a kind changes the state and the table of a client.
pub data ClientMoves (k : StepKind) (c c' : Client) : Type 0 where
  stays : c'.client_state ≡ c.client_state → c'.table ≡ c.table → ClientMoves k c c'
  connected :
      k ≡ connecting
      → c'.client_state ≡ waiting_for_admin_to_serve_cards
      → c'.table ≡ c.table
      → ClientMoves k c c'
  served :
      k ≡ receiving
      → c.client_state ≡ waiting_for_admin_to_serve_cards
      → c'.client_state ≡ waiting_for_admin_to_choose_player
      → ClientMoves k c c'
  other_chosen :
      k ≡ receiving
      → c.client_state ≡ waiting_for_admin_to_choose_player
      → c'.client_state ≡ waiting_for_decision_sync
      → c'.table ≡ c.table
      → ClientMoves k c c'
  synced :
      k ≡ receiving
      → c.client_state ≡ waiting_for_decision_sync
      → c'.client_state ≡ waiting_for_admin_to_choose_player
      → ClientMoves k c c'
  decided : k ≡ asking → c'.client_state ≡ waiting_for_admin_to_choose_player → ClientMoves k c c'
  not_accepted : k ≡ asking → c'.client_state ≡ c.client_state → ClientMoves k c c'

note_each_player-state :
    (names : List String) (c : Client) → (note_each_player names c).client_state ≡ c.client_state
unfolding note_each_player
note_each_player-state [] c = refl
note_each_player-state (name ∷ names) c = note_each_player-state names _

note_each_player-table :
    (names : List String) (c : Client) → (note_each_player names c).table ≡ c.table
unfolding note_each_player
note_each_player-table [] c = refl
note_each_player-table (name ∷ names) c = note_each_player-table names _

joined-ClientMoves :
    (name : String) (c : Client) → ClientMoves receiving c (on_player_joined name c)
unfolding on_player_joined
joined-ClientMoves name c =
    stays (note_each_player-state (name ∷ []) _) (note_each_player-table (name ∷ []) _)

served-ClientMoves :
    (taken : Bool) (t : Table) (c : Client) → ClientMoves receiving c (on_served_cards taken t c)
unfolding on_served_cards
served-ClientMoves taken t c = elim (Bool-cases (is_waiting_for_cards c.client_state)) [
  | inl w ↦ served refl (ground (arith, w)) (ground (arith, w))
  | inr w ↦ stays (ground (arith, w)) (ground (arith, w))
]

chosen-ClientMoves :
    (name : String) (counter : ℕ) (c : Client)
    → ClientMoves receiving c (on_chosen_player name counter c)
unfolding on_chosen_player
chosen-ClientMoves name counter c = elim (Bool-cases (is_waiting_for_choice c.client_state)) [
  | inl w ↦ elim (Bool-cases (str_eq c.table.local_player_name name)) [
    | inl q ↦ stays (ground (arith, w, q)) (ground (arith, w, q))
    | inr q ↦ other_chosen refl (ground (arith, w, q)) (ground (arith, w, q)) (ground (arith, w, q))
  ]
  | inr w ↦ stays (ground (arith, w)) (ground (arith, w))
]

synced-ClientMoves :
    (s : Sorter) (ev : PlayerDecisionsRequest) (c c' : Client)
    → on_player_decisions_sync s ev c ≡ some c'
    → ClientMoves receiving c c'
unfolding on_player_decisions_sync
synced-ClientMoves s ev c c' e =
    elim (Bool-cases (str_eq ev.deciding_player c.table.local_player_name)) [
      | inl q ↦ stays (ground (arith, q, e)) (ground (arith, q, e))
      | inr q ↦ elim (Bool-cases (is_waiting_for_sync c.client_state)) [
        | inl w ↦ synced refl (ground (arith, w)) (ground (arith, w, q, e))
        | inr w ↦ stays (ground (arith, w, q, e)) (ground (arith, w, q, e))
      ]
    ]

command-ClientMoves :
    (resolve : Resolver) (command : ReplCommand) (c : Client)
    → ClientMoves commanding c (handle_general_command resolve command c)
unfolding handle_general_command
command-ClientMoves resolve command c = stays (ground arith) (ground arith)

send_decisions-state :
    (counter : ℕ) (reply : Response) (ds : List PlayerDecision) (c : Client)
    → ((send_decisions counter reply ds c).client_state ≡ c.client_state)
      ⊎ ((send_decisions counter reply ds c).client_state ≡ waiting_for_admin_to_choose_player)
send_decisions-state counter reply ds c = ground arith

ask-state :
    (s : Sorter) (commands : List ReplCommand) (counter : ℕ) (reply : Response) (c c' : Client)
    → ask_and_run_user_decisions s commands counter reply c ≡ some c'
    → (c'.client_state ≡ c.client_state) ⊎ (c'.client_state ≡ waiting_for_admin_to_choose_player)
unfolding ask_and_run_user_decisions
ask-state s commands counter reply c c' e =
    let ((ds, d), ran) = some_of (run_commands s commands [] (ask c)) (λ z. ground (arith, z, e)) in
    let kept = (run_commands-Untouched s commands [] ds (ask c) d ran).state in
    ground (arith, e, ran, kept, send_decisions-state counter reply ds d)

some_injective : {A : Type 0} {a b : A} → some a ≡ some b → a ≡ b
some_injective e = ground (arith, e)

event-ClientMoves :
    (s : Sorter) (taken : Bool) (ev : ServerEvent) (c c' : Client)
    → on_server_event s taken ev c ≡ some c'
    → ClientMoves receiving c c'
unfolding on_server_event
event-ClientMoves s taken (player_joined name) c c' e =
    subst (ClientMoves receiving c) (some_injective e) (joined-ClientMoves name c)
event-ClientMoves s taken (existing_players_list names) c c' e =
    subst (ClientMoves receiving c) (some_injective e) (stays refl refl)
event-ClientMoves s taken (served_cards t) c c' e =
    subst (ClientMoves receiving c) (some_injective e) (served-ClientMoves taken t c)
event-ClientMoves s taken (chosen_player name counter) c c' e =
    subst (ClientMoves receiving c) (some_injective e) (chosen-ClientMoves name counter c)
event-ClientMoves s taken (player_decisions_sync ev) c c' e = synced-ClientMoves s ev c c' e

pub ClientStep-ClientMoves :
    (s : Sorter) (k : StepKind) (c c' : Client) → ClientStep s k c c' → ClientMoves k c c'
ClientStep-ClientMoves s _ c _ (joins names) = connected refl refl (note_each_player-table names c)
ClientStep-ClientMoves s _ c c' (receives taken ev e) = event-ClientMoves s taken ev c c' e
ClientStep-ClientMoves s _ c c' (asks commands counter reply e) =
    elim (ask-state s commands counter reply c c' e) [
      | inl q ↦ not_accepted refl q
      | inr q ↦ decided refl q
    ]
ClientStep-ClientMoves s _ c _ (commanded resolve command) = command-ClientMoves resolve command c

never_asking :
    (k : StepKind) (c c' : Client)
    → ClientMoves k c c'
    → c.client_state ≢ asking_user_for_decision
    → c'.client_state ≢ asking_user_for_decision
never_asking k c c' (stays p q) n = λ e. n (sym p ∙ e)
never_asking k c c' (connected p q r) n = λ e. ground (arith, q, e)
never_asking k c c' (served p q r) n = λ e. ground (arith, r, e)
never_asking k c c' (other_chosen p q r t) n = λ e. ground (arith, r, e)
never_asking k c c' (synced p q r) n = λ e. ground (arith, r, e)
never_asking k c c' (decided p q) n = λ e. ground (arith, q, e)
never_asking k c c' (not_accepted p q) n = λ e. n (sym q ∙ e)

-- A client that is connected by the stream never enters the state AskingUserForDecision, not even
-- while its user is asked.
pub ClientStep-never_asking :
    (s : Sorter) (k : StepKind) (c c' : Client)
    → ClientStep s k c c'
    → c.client_state ≢ asking_user_for_decision
    → c'.client_state ≢ asking_user_for_decision
ClientStep-never_asking s k c c' step n =
    never_asking k c c' (ClientStep-ClientMoves s k c c' step) n
