-- ===== src/Client/Chosen.antt =====
-- player_client_sse.go and player_client.go: what served cards and a chosen player do.
use uknow.Prelude.{ℕ, ◌≡◌, Bool, String, [], ◌∷◌, ◌++◌, some, arith, eq_iff}
use mathlib.Core.List.{append_assoc}
use uknow.Table.{Table, set_table}
use uknow.Table.Local.{owned_by}
use uknow.Client.{
  Client, waiting_for_admin_to_serve_cards, waiting_for_admin_to_choose_player,
  ask_and_run_decisions,
}
use uknow.Client.Events.{
  on_served_cards, on_chosen_player, handle_chosen_player_event, reply_bad_request,
}

-- When the local player is chosen twice, the stream starts two goroutines that ask the user for
-- decisions, where the handler of requests starts one and refuses the second choice.
pub chosen_twice_asks_twice :
    (name : String) (first second : ℕ) (c : Client)
    → c.client_state ≡ waiting_for_admin_to_choose_player
    → c.table.local_player_name ≡ name
    → let handled = handle_chosen_player_event (some (name, first)) c in
      ((on_chosen_player name second (on_chosen_player name first c)).jobs
        ≡ c.jobs ++ ask_and_run_decisions first ∷ ask_and_run_decisions second ∷ [])
      × (handled.1.jobs ≡ c.jobs ++ ask_and_run_decisions first ∷ [])
      × (handle_chosen_player_event (some (name, second)) handled.1
          ≡ (reply_bad_request, handled.1))
unfolding on_chosen_player handle_chosen_player_event
chosen_twice_asks_twice name first second c st e =
    let same = eq_iff c.table.local_player_name name in
    (
      ground (
        arith,
        same,
        append_assoc c.jobs (ask_and_run_decisions first ∷ []) (ask_and_run_decisions second ∷ []),
      ),
      ground (arith, same),
      ground (arith, same),
    )

-- A client that waits for its cards and whose fields that Set leaves out are those of the server has
-- the server's table, with its own name, once the cards are served.
pub on_served_cards-owned_by :
    (taken : Bool) (t : Table) (c : Client)
    → c.client_state ≡ waiting_for_admin_to_serve_cards
    → c.table.turns_completed ≡ t.turns_completed
    → c.table.table_state ≡ t.table_state
    → c.table.required_number_before_wild4 ≡ t.required_number_before_wild4
    → c.table.winner_player_name ≡ t.winner_player_name
    → ((on_served_cards taken t c).table ≡ owned_by c.table.local_player_name t)
      × ((on_served_cards taken t c).client_state ≡ waiting_for_admin_to_choose_player)
unfolding on_served_cards set_table
on_served_cards-owned_by taken t c st e₁ e₂ e₃ e₄ = ground arith
