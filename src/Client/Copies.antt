-- ===== src/Client/Copies.antt =====
-- The copies of the table: the deciding player's, the server's and another player's.
pub mod Rounds
use uknow.Prelude.{
  some_of, ℕ, ◌≡◌, sym, ap, ap₂, ◌∙◌, ◌≢◌, Bool, String, List, [], ◌∷◌, ◌++◌, some, ok, arith,
  eq_iff,
}
use mathlib.Core.Path.{subst}
use uknow.Deck.{Sorter}
use uknow.Table.{Table, PlayerDecision}
use uknow.Table.Game.{Game}
use uknow.Table.Decide.{eval_player_decisions, eval_player_decisions_no_transfer_chan}
use uknow.Table.Local.{owned_by}
use uknow.Table.Local.Decisions.{eval_player_decisions-Agrees}
use uknow.Repl.{ReplCommand}
use uknow.Admin.Server.{Admin, PlayerDecisionsRequest, syncing_player_decision}
use uknow.Admin.Dispatch.{dispatch_decision}
use uknow.Client.{
  Client, Response, post_player_decisions, waiting_for_admin_to_choose_player,
  waiting_for_decision_sync,
}
use uknow.Client.Asking.{run_commands, ask_and_run_user_decisions, ask, send_decisions}
use uknow.Client.Events.{on_player_decisions_sync}
use uknow.Client.Replay.{Replays}
use uknow.Client.Untouched.{Untouched, run_commands-Untouched}
use uknow.Client.Replay.Turns.{ChallengesPaid, Replayed, run_commands-Replayed}

Replays-owned_by :
    (s : Sorter) (name owner : String) (t u : Table) (ds : List PlayerDecision) (g : Game)
    → Replays s name t ds u
    → g.table ≡ owned_by owner t
    → ((eval_player_decisions s name ds g).0 ≡ ok tt)
      × ((eval_player_decisions s name ds g).1.table ≡ owned_by owner u)
Replays-owned_by s name owner t u ds g r e =
    let first : Game = record { table = t; sent = [] } in
    let (q, same) = (eval_player_decisions-Agrees s {owner = owner} name ds).at first g e in
    (q ∙ r.succeeds [], same ∙ ap (owned_by owner) (r.leaves []))

-- The server and another player have evaluated the request that the deciding player posted.
pub record Shared (s : Sorter) (c c' : Client) (admin : Admin) (other : Client) : Type 0 where
  pub request : PlayerDecisionsRequest
  pub posted : c'.posted ≡ c.posted ++ (c.admin_addr, post_player_decisions request) ∷ []
  pub by : request.deciding_player ≡ c.table.local_player_name
  pub server :
      (sent : Bool)
      → (admin' : Admin) × (dispatch_decision s sent request admin ≡ some admin')
        × (admin'.table ≡ owned_by "" c'.table)
        × (admin'.state ≡ syncing_player_decision)
  pub player :
      (other' : Client) × (on_player_decisions_sync s request other ≡ some other')
      × (other'.table ≡ owned_by other.table.local_player_name c'.table)
      × (other'.client_state ≡ waiting_for_admin_to_choose_player)

module _ (s : Sorter) (request : PlayerDecisionsRequest) {t u : Table}
    (r : Replays s request.deciding_player t request.decisions u) where
  server_follows :
      (sent : Bool) (admin : Admin)
      → admin.table ≡ owned_by "" t
      → (admin' : Admin) × (dispatch_decision s sent request admin ≡ some admin')
        × (admin'.table ≡ owned_by "" u)
        × (admin'.state ≡ syncing_player_decision)
  unfolding dispatch_decision eval_player_decisions_no_transfer_chan
  server_follows sent admin e =
      let g : Game = record { table = admin.table; sent = [] } in
      let (q, same) = Replays-owned_by s request.deciding_player "" t u request.decisions g r e in
      let (admin', h) = some_of (dispatch_decision s sent request admin) (λ z. ground (arith, q)) in
      (admin', h, ground (arith, h, q, same), ground (arith, h, q))

  player_follows :
      (other : Client)
      → request.deciding_player ≢ other.table.local_player_name
      → other.client_state ≡ waiting_for_decision_sync
      → other.table ≡ owned_by other.table.local_player_name t
      → (other' : Client) × (on_player_decisions_sync s request other ≡ some other')
        × (other'.table ≡ owned_by other.table.local_player_name u)
        × (other'.client_state ≡ waiting_for_admin_to_choose_player)
  unfolding on_player_decisions_sync
  player_follows other n st e =
      let g : Game = record { table = other.table; sent = other.game_events } in
      let (q, same) =
        Replays-owned_by s request.deciding_player other.table.local_player_name t u
          request.decisions g r e in
      let apart = eq_iff request.deciding_player other.table.local_player_name in
      let (other', h) =
        some_of (on_player_decisions_sync s request other) (λ z. ground (arith, q, apart)) in
      (other', h, ground (arith, h, q, same, apart), ground (arith, h, q, apart))

send_decisions-table :
    (reply : Response) (counter : ℕ) (ds : List PlayerDecision) (c : Client)
    → (send_decisions counter reply ds c).table ≡ c.table
send_decisions-table reply counter ds c = ground arith

send_decisions-posted :
    (reply : Response) (counter : ℕ) (ds : List PlayerDecision) (c : Client)
    → (send_decisions counter reply ds c).posted
      ≡ c.posted
        ++ (
          c.admin_addr,
          post_player_decisions (record {
            deciding_player = c.table.local_player_name;
            decisions = ds;
            decision_event_counter = counter;
          }),
        )
          ∷ []
send_decisions-posted reply counter ds c = ground arith

post_decisions-Shared :
    (s : Sorter) (counter : ℕ) (reply : Response) (ds : List PlayerDecision) (c d : Client)
    (admin : Admin) (other : Client)
    → Untouched c d
    → Replayed s c d ds
    → admin.table ≡ owned_by "" c.table
    → other.table ≡ owned_by other.table.local_player_name c.table
    → c.table.local_player_name ≢ other.table.local_player_name
    → other.client_state ≡ waiting_for_decision_sync
    → Shared s c (send_decisions counter reply ds d) admin other
post_decisions-Shared s counter reply ds c d admin other u r ea eo n st = record {
  request = request;
  posted =
      send_decisions-posted reply counter ds d
      ∙ ap₂ (λ ps addr. ps ++ (addr, post_player_decisions request) ∷ []) u.posted u.address;
  by = r.owner;
  server = λ sent.
      let (admin', h, t, q) = server_follows s request replays sent admin ea in
      (admin', h, t ∙ ap (owned_by "") (sym same), q);
  player =
      let (other', h, t, q) =
        player_follows s request replays other (λ e. n (sym r.owner ∙ e)) st eo in
      (other', h, t ∙ ap (owned_by other.table.local_player_name) (sym same), q);
}
  where
    request : PlayerDecisionsRequest
    request = record {
      deciding_player = d.table.local_player_name;
      decisions = ds;
      decision_event_counter = counter;
    }

    replays : Replays s d.table.local_player_name c.table ds d.table
    replays = subst (λ name. Replays s name c.table ds d.table) (sym r.owner) r.replays

    same : (send_decisions counter reply ds d).table ≡ d.table
    same = send_decisions-table reply counter ds d

-- A turn of the client c, with the commands of its user, whose decisions are posted. If the server and
-- another player, who waits for the decisions, have the table of c from before the turn, each with
-- their own name, then the server evaluates the posted request without an error and has the table of
-- c after the turn, and so has the other player, who then waits for the next choice. It is asked
-- that the draw deck has four cards whenever a challenge is taken or declined.
pub turn-Shared :
    (s : Sorter) (commands : List ReplCommand) (counter : ℕ) (reply : Response) (c c' : Client)
    (admin : Admin) (other : Client)
    → ask_and_run_user_decisions s commands counter reply c ≡ some c'
    → ChallengesPaid s commands (ask c)
    → admin.table ≡ owned_by "" c.table
    → other.table ≡ owned_by other.table.local_player_name c.table
    → c.table.local_player_name ≢ other.table.local_player_name
    → other.client_state ≡ waiting_for_decision_sync
    → Shared s c c' admin other
unfolding ask_and_run_user_decisions
turn-Shared s commands counter reply c c' admin other e paid ea eo n st =
    let ((ds, d), ran) = some_of (run_commands s commands [] (ask c)) (λ z. ground (arith, z, e)) in
    let r = run_commands-Replayed s commands ds (ask c) d paid ran in
    let u = run_commands-Untouched s commands [] ds (ask c) d ran in
    let shared =
      post_decisions-Shared s counter reply ds c d admin other
        (record { posted = u.posted; address = u.address; state = u.state })
        (record { owner = r.owner; replays = r.replays }) ea eo n st in
    subst (λ x. Shared s c x admin other) (ground (arith, ran, e)) shared
