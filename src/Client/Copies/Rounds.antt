-- ===== src/Client/Copies/Rounds.antt =====
-- The copies of the table over the rounds of a game: a player is chosen, decides and posts, and the
-- server and the others evaluate what was posted.
use mathlib.Core.Path.{subst}
use uknow.Prelude.{
  ℕ, ◌≡◌, ◌≢◌, refl, sym, ap, ◌∙◌, Bool, true, String, List, [], ◌∷◌, ◌++◌, Option, none, some,
  arith, str_eq, eq_iff, count, some_of, Bool-cases, inl, inr,
}
use uknow.Deck.{Sorter}
use uknow.Table.{Table, PlayerDecision}
use uknow.Table.Local.{owned_by}
use uknow.Address.{HostPortProtocol}
use uknow.Repl.{ReplCommand}
use uknow.Admin.Server.{Admin, PlayerDecisionsRequest, handle_player_decisions_event}
use uknow.Admin.Dispatch.{dispatch_decision, dispatch_chosen}
use uknow.Client.{
  Client, Post, Response, status_ok, post_player_decisions, waiting_for_admin_to_choose_player,
  waiting_for_decision_sync,
}
use uknow.Client.Asking.{ask, run_commands, ask_and_run_user_decisions, send_decisions}
use uknow.Client.Events.{on_chosen_player, on_player_decisions_sync}
use uknow.Client.Replay.{Replays}
use uknow.Client.Replay.Turns.{ChallengesPaid, run_commands-Replayed}
use uknow.Client.Untouched.{run_commands-Untouched}
use uknow.Client.Copies.{
  send_decisions-table, send_decisions-posted, server_follows, player_follows,
}

-- What a turn posts, and what it leaves of the client.
record Posted (s : Sorter) (c c' : Client) : Type 0 where
  pub request : PlayerDecisionsRequest
  pub posted : c'.posted ≡ c.posted ++ (c.admin_addr, post_player_decisions request) ∷ []
  pub by : request.deciding_player ≡ c.table.local_player_name
  pub owner : c'.table.local_player_name ≡ c.table.local_player_name
  pub replays : Replays s request.deciding_player c.table request.decisions c'.table

abbrev the_request : Client → List PlayerDecision → ℕ → PlayerDecisionsRequest
the_request c ds counter = record {
  deciding_player = c.table.local_player_name;
  decisions = ds;
  decision_event_counter = counter;
}

turn-Posted :
    (s : Sorter) (commands : List ReplCommand) (counter : ℕ) (reply : Response) (c c' : Client)
    → ask_and_run_user_decisions s commands counter reply c ≡ some c'
    → ChallengesPaid s commands (ask c)
    → Posted s c c'
unfolding ask_and_run_user_decisions
turn-Posted s commands counter reply c c' e paid =
    let ((ds, d), ran) = some_of (run_commands s commands [] (ask c)) (λ z. ground (arith, z, e)) in
    let r = run_commands-Replayed s commands ds (ask c) d paid ran in
    let u = run_commands-Untouched s commands [] ds (ask c) d ran in
    let same = send_decisions-table reply counter ds d in
    let sent : Posted s c (send_decisions counter reply ds d) = record {
      request = the_request d ds counter;
      posted =
          send_decisions-posted reply counter ds d
          ∙ ap (λ ps. ps ++ (d.admin_addr, post_player_decisions (the_request d ds counter)) ∷ [])
              u.posted
          ∙ ap (λ addr. c.posted ++ (addr, post_player_decisions (the_request d ds counter)) ∷ [])
              u.address;
      by = r.owner;
      owner = ap (λ (t : Table). t.local_player_name) same ∙ r.owner;
      replays =
          subst (Replays s d.table.local_player_name c.table ds) (sym same)
            (subst (λ name. Replays s name c.table ds d.table) (sym r.owner) r.replays);
    } in
    subst (Posted s c) (ground (arith, ran, e)) sent

turn_accepted :
    (s : Sorter) (commands : List ReplCommand) (counter : ℕ) (c c' : Client)
    → ask_and_run_user_decisions s commands counter status_ok c ≡ some c'
    → c'.client_state ≡ waiting_for_admin_to_choose_player
unfolding ask_and_run_user_decisions
turn_accepted s commands counter c c' e =
    let ((ds, d), ran) = some_of (run_commands s commands [] (ask c)) (λ z. ground (arith, z, e)) in
    ground (arith, ran, e)

-- The server, and the client of every name.
pub record World : Type 0 where
  pub admin : Admin
  pub client : String → Client

abbrev request_of : Post → Option PlayerDecisionsRequest
request_of (post_player_decisions request) = some request
request_of _ = none

-- The request that was posted last.
abbrev pub last_request : List (HostPortProtocol × Post) → Option PlayerDecisionsRequest
last_request [] = none
last_request ((addr, p) ∷ []) = request_of p
last_request (x ∷ y ∷ posts) = last_request (y ∷ posts)

last_request-append :
    (posts : List (HostPortProtocol × Post)) (addr : HostPortProtocol)
    (request : PlayerDecisionsRequest)
    → last_request (posts ++ (addr, post_player_decisions request) ∷ []) ≡ some request
last_request-append [] addr request = refl
last_request-append (x ∷ []) addr request = refl
last_request-append (x ∷ y ∷ posts) addr request = last_request-append (y ∷ posts) addr request

-- Whether the name takes part.
abbrev pub Plays : List String → String → Type 0
Plays names name = count (str_eq name) names ≢ 0

-- One round: the server tells all clients whom it has chosen, the chosen one decides and posts, the
-- server accepts and evaluates what was posted, and passes it on to the others. The draw deck has four
-- cards whenever a challenge is taken or declined.
pub data Round (s : Sorter) (names : List String) : World → World → Type 0 where
  round :
      {w w' : World} (name : String) (counter : ℕ) (commands : List ReplCommand) (told sent : Bool)
      (request : PlayerDecisionsRequest)
      → Plays names name
      → w.admin.table.player_of_next_turn ≡ name
      → ask_and_run_user_decisions s commands counter status_ok
          (on_chosen_player name counter (w.client name))
        ≡ some (w'.client name)
      → ChallengesPaid s commands (ask (on_chosen_player name counter (w.client name)))
      → last_request (w'.client name).posted ≡ some request
      → dispatch_decision s sent request
          (handle_player_decisions_event true (some request) (dispatch_chosen told w.admin)).1
        ≡ some w'.admin
      → ((other : String)
          → Plays names other
          → name ≢ other
          → on_player_decisions_sync s request (on_chosen_player name counter (w.client other))
            ≡ some (w'.client other))
      → Round s names w w'

pub data Rounds (s : Sorter) (names : List String) : World → World → Type 0 where
  no_round : {w : World} → Rounds s names w w
  and_round : {u v w : World} → Rounds s names u v → Round s names v w → Rounds s names u w

-- All have the same table, each with their own name, and all wait for the server to choose.
pub record Together (names : List String) (w : World) : Type 0 where
  pub table : Table
  pub server : w.admin.table ≡ owned_by "" table
  pub copies : (name : String) → Plays names name → (w.client name).table ≡ owned_by name table
  pub waiting :
      (name : String)
      → Plays names name
      → (w.client name).client_state ≡ waiting_for_admin_to_choose_player

chosen-table :
    (name : String) (counter : ℕ) (c : Client) → (on_chosen_player name counter c).table ≡ c.table
unfolding on_chosen_player
chosen-table name counter c = ground arith

other_chosen-state :
    (name : String) (counter : ℕ) (c : Client)
    → c.client_state ≡ waiting_for_admin_to_choose_player
    → name ≢ c.table.local_player_name
    → (on_chosen_player name counter c).client_state ≡ waiting_for_decision_sync
unfolding on_chosen_player
other_chosen-state name counter c st n = ground (arith, eq_iff c.table.local_player_name name, n)

accepted-table :
    (told : Bool) (request : PlayerDecisionsRequest) (admin : Admin)
    → (handle_player_decisions_event true (some request) (dispatch_chosen told admin)).1.table
      ≡ admin.table
unfolding handle_player_decisions_event dispatch_chosen
accepted-table told request admin = ground arith

name_of_copy : (name : String) (t u : Table) → t ≡ owned_by name u → t.local_player_name ≡ name
name_of_copy name t u e = ap (λ (x : Table). x.local_player_name) e

own_copy : (name : String) (t : Table) → t.local_player_name ≡ name → t ≡ owned_by name t
own_copy name t e = ap (λ owner. owned_by owner t) e

some_injective : {A : Type 0} {a b : A} → some a ≡ some b → a ≡ b
some_injective e = ground (arith, e)

-- The round of the chosen name, whose turn leaves the table u.
module _ (s : Sorter) (names : List String) (w w' : World) (t : Together names w) (name : String)
    (counter : ℕ) (request : PlayerDecisionsRequest) (u : Table)
    (r : Replays s request.deciding_player (owned_by name t.table) request.decisions u)
    (by : request.deciding_player ≡ name) where
  server_after :
      (told sent : Bool)
      → dispatch_decision s sent request
          (handle_player_decisions_event true (some request) (dispatch_chosen told w.admin)).1
        ≡ some w'.admin
      → w'.admin.table ≡ owned_by "" u
  server_after told sent e =
      let (a, h, same, _) =
        server_follows s request r sent
          (handle_player_decisions_event true (some request) (dispatch_chosen told w.admin)).1
          (accepted-table told request w.admin ∙ t.server) in
      subst (λ (x : Admin). x.table ≡ owned_by "" u) (some_injective (sym h ∙ e)) same

  other_after :
      (other : String)
      → Plays names other
      → name ≢ other
      → on_player_decisions_sync s request (on_chosen_player name counter (w.client other))
        ≡ some (w'.client other)
      → ((w'.client other).table ≡ owned_by other u)
        × ((w'.client other).client_state ≡ waiting_for_admin_to_choose_player)
  other_after other p n e =
      let c = on_chosen_player name counter (w.client other) in
      let copy = chosen-table name counter (w.client other) ∙ t.copies other p in
      let mine : c.table.local_player_name ≡ other = name_of_copy other c.table t.table copy in
      let before = name_of_copy other (w.client other).table t.table (t.copies other p) in
      let (d, h, same, st) =
        player_follows s request r c (λ q. n (sym by ∙ q ∙ mine))
          (other_chosen-state name counter (w.client other) (t.waiting other p)
            (λ q. n (q ∙ before)))
          (copy ∙ ap (λ o. owned_by o t.table) (sym mine)) in
      subst
        (λ (x : Client).
          (x.table ≡ owned_by other u) × (x.client_state ≡ waiting_for_admin_to_choose_player))
        (some_injective (sym h ∙ e)) (same ∙ ap (λ o. owned_by o u) mine, st)

-- What a round does to a client, whoever has been chosen.
abbrev Follows : World → Table → String → Type 0
Follows w u name =
    ((w.client name).table ≡ owned_by name u)
    × ((w.client name).client_state ≡ waiting_for_admin_to_choose_player)

together :
    (names : List String) (w : World) (u : Table)
    → w.admin.table ≡ owned_by "" u
    → ((name : String) → Plays names name → Follows w u name)
    → Together names w
together names w u e all = record {
  table = u;
  server = e;
  copies = λ name p. (all name p).0;
  waiting = λ name p. (all name p).1;
}

Round-Together :
    (s : Sorter) (names : List String) (w w' : World)
    → Round s names w w'
    → Together names w
    → Together names w'
Round-Together s names w w'
      (round name counter commands told sent request p chosen turn paid last ran sync) t =
    together names w' u
      (server_after s names w w' t name counter request u replays by told sent ran)
      (λ other q. elim (Bool-cases (str_eq name other)) [
        | inl e ↦
            subst (Follows w' u) ((eq_iff name other).0 e)
              (own_copy name u owner, turn_accepted s commands counter c (w'.client name) turn)
        | inr e ↦
            let n : name ≢ other = λ z. ground (arith, e, z, eq_iff name other) in
            other_after s names w w' t name counter request u replays by other q n (sync other q n)
      ])
  where
    c : Client
    c = on_chosen_player name counter (w.client name)

    u : Table
    u = (w'.client name).table

    mine : c.table ≡ owned_by name t.table
    mine = chosen-table name counter (w.client name) ∙ t.copies name p

    posted : Posted s c (w'.client name)
    posted = turn-Posted s commands counter status_ok c (w'.client name) turn paid

    owner : u.local_player_name ≡ name
    owner = posted.owner ∙ name_of_copy name c.table t.table mine

    same : posted.request ≡ request
    same = some_injective (
        sym (last_request-append c.posted c.admin_addr posted.request)
        ∙ ap last_request (sym posted.posted)
        ∙ last)

    by : request.deciding_player ≡ name
    by =
        ap (λ (r : PlayerDecisionsRequest). r.deciding_player) (sym same)
        ∙ posted.by
        ∙ name_of_copy name c.table t.table mine

    replays : Replays s request.deciding_player (owned_by name t.table) request.decisions u
    replays =
        subst (λ (x : Table). Replays s request.deciding_player x request.decisions u) mine
          (subst (λ (r : PlayerDecisionsRequest). Replays s r.deciding_player c.table r.decisions u)
            same posted.replays)

-- The copies of the table never part: if the server and all clients have the same table, each with
-- their own name, and wait for the next choice, then so it is after any number of rounds in which
-- the server accepts what the chosen player posts, whatever their users type. It is asked that the
-- draw deck has four cards whenever a challenge is taken or declined.
pub Rounds-Together :
    (s : Sorter) (names : List String) (w w' : World)
    → Rounds s names w w'
    → Together names w
    → Together names w'
Rounds-Together s names w _ no_round t = t
Rounds-Together s names w w' (and_round {v = v} before last) t =
    Round-Together s names v w' last (Rounds-Together s names w v before t)
