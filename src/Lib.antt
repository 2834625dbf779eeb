-- ===== src/Lib.antt =====
-- Verification of uknow, a game of UNO in the terminal, written in Go.
--
-- The program. A table (uknow.go) holds the draw deck, the discarded pile, the hands, the seats and
-- whose turn it is. The server (admin/) and every client (player_client/) keep a table each and
-- evaluate the same decisions on it, so the evaluation decides what the game is. The server deals
-- (Table.ShuffleDeckAndDistribute) or loads a table from a description (hand_reader/), and waits
-- for acks of its clients (admin/expected_acks.go). A client reads commands from a prompt with a
-- history (player_client/repl_command.go, player_client/command_history.go), evaluates the decisions
-- of its user on its own copy, posts them, and evaluates those of the others as the server sends
-- them (player_client/player_client.go, player_client/player_client_sse.go), line by line
-- (internal/utils/line_reader.go) and encrypted (aes_encrypt.go, internal/messages/messages.go). The
-- events of its table move the cards on its screen (player_client/player_client_ui.go).
--
-- The files.
--   Prelude       names of the libraries, passed on; lists, maps, swaps, words, Go's int (Int) and
--                 how a Go call ends (Outcomes: ok, err or panic).
--   Card          uknow.go and card_hash.go: numbers, colors, cards. Card/Codec: the packed form.
--                 Card/Printing: the printed forms.
--   Deck          uknow.go, type Deck. Deck/Counts and Deck/Full: what its operations do.
--   Event         game_event.go: what a table sends to the user interface. Event/Messages: its texts.
--   Table         uknow.go, type Table, AddPlayer, Set and the constructors.
--     Seats       GetNextPlayerIndex, GetNextPlayer, PlayerIndexFromName and their kin.
--     Game        the table with the events sent so far, and the calls that change the two. A call
--                 returns its outcome and the game it leaves, also where it fails, since the code
--                 changes the table in place.
--     Eval        pullCardFromDeckToPlayerHand, setNeighborAsNextPlayer, setNextPlayerSkipOne,
--                 evalPlayedActionCard.
--     Play        tryPlayCard and checkIfPlayerHasWon.
--     Decide      EvalPlayerDecision and EvalPlayerDecisions, one function for each kind.
--     Deal        ShuffleIntRange (uknow_utils.go) and ShuffleDeckAndDistribute.
--     Rearranging RearrangePlayerIndices, with its theorem.
--     Printing    PrintHands, PrintDrawDeck, Summary, SetIndexOfPlayer.
--     Rules, Stable   what is kept by each call is kept by each sequence of decisions.
--     Local       a table and its copy with the name of another owner.
--     Failures    what a call that fails leaves of the table.
--     Repeating   a decision as it is returned, evaluated again.
--     Cards, Direction, Turns, Phases, Invariants, Refusals, Draws, Challenge, Seating   theorems.
--   History       player_client/command_history.go. History/Contents, History/Browsing: theorems.
--   Repl          player_client/repl_command.go, cards; Repl/Commands: parseCommand and
--                 ParseCommandFromInput. Repl/Printing, Repl/Reading: theorems.
--   HandReader    hand_reader/hand_reader.go: the parts of a description. HandReader/Making:
--                 makeTable; HandReader/Loading: LoadConfig; HandReader/Making/Piles: theorems.
--   Admin/Acks    admin/expected_acks.go. Admin/Acks/Matching and
--                 Admin/Acks/Timing: theorems.
--   Admin/Server  admin/admin.go: the handlers. Admin/Dispatch: dispatchEventWithSSE, runNewTurn and
--                 the callbacks. Admin/Prompt: starting, Restart and the prompt. Admin/Steps: the
--                 server as a step relation. Admin/Names, Admin/Requests, Admin/Prompt/Restarted:
--                 theorems.
--   Client        player_client/player_client.go: the state of a client. Client/Asking: a turn of its
--                 user (askAndRunUserDecisions). Client/Events: the handlers and the controller of
--                 player_client_sse.go. Client/Commands: RunGeneralCommandHandler and joining.
--                 Client/Copies/Rounds: the server and all clients, round by round.
--                 Client/Replay, Client/Untouched, Client/Copies, Client/Steps, Client/Chosen:
--                 theorems.
--   Screen        player_client/player_client_ui.go: what the widgets show, the log and the prompt.
--                 Screen/Hands: the cards; Screen/Hands/Cells, Screen/Hands/Chart: their texts and
--                 counts.
--                 Screen/Inputs: keys, questions, answers and game events.
--                 Screen/Inputs/Forwarding: a turn, between the user interface and the client.
--                 Screen/Log, Screen/Hands/Starting, Screen/Hands/Evaluations,
--                 Screen/Inputs/Winner: theorems.
--   LineReader    internal/utils/line_reader.go, and the loop of the client over the lines.
--   Cipher        aes_encrypt.go. Messages: internal/messages/messages.go.
--   Address       internal/utils/http_utils.go: addresses.
--   Examples      concrete tables, rings, words and lists, at which the theorems are applied.
--
-- Numbers. Numbers of cards, colors, indices and counts are natural numbers; a direction, a step and
-- a position are integers (Prelude/Int) and are not wrapped at 64 bits, which no game reaches. A
-- packed card is wrapped at 32 bits, as in the code. Each loop is a recursion on the list or the
-- count that it goes through; only the digits of a counter in an ack id are written on fuel, with one
-- more than the counter, which has no more digits than that.
--
-- Parameters. sort.Sort is a record (Deck.Sorter, and Table.Rearranging.NameSorter) with the law that
-- it rearranges the slice; nothing is said of the order, since Deck.Less is no strict weak order.
-- rand.Intn is a record (Table.Deal.Rand) with the law that the result is below the bound. The order
-- in which Go ranges over a map is a list of its keys. The parser of commands takes the tokens of
-- text/scanner.
-- The AEAD of crypto/cipher, the random bytes of a nonce, the encoder and the decoder of JSON, and
-- net.ResolveTCPAddr are parameters, with what they are asked to do as hypotheses of the theorems.
-- bufio.Scanner is the list of the lines that it finds with the error at their end; the free room of
-- the buffer of io.ReadAll at each read is a list. The answers of the server to the client, the
-- commands of a user, whether a channel is read in time (Admin.handlePlayerDecisionsEvent and the
-- list of acks too), and whether the address of a sender is resolved are arguments.
-- strings.ToLower, strconv.Atoi and strings.TrimSpace are modelled on ASCII (Prelude/Words).
--
-- Not modelled. Logging, and what the client's commands print; sending requests over HTTP and the
-- parsing of JSON, which are I/O or code of libraries; the places and styles of widgets and their
-- redrawing; the server's configuration; the code in admin/admin_deprecated.go, which nothing calls;
-- the entry points in cmd/. A channel to the user interface is a list that never blocks. A character of
-- the prompt stands for one byte.
pub mod Prelude
pub mod Card
pub mod Address
pub mod Client
pub mod LineReader
pub mod Cipher
pub mod Messages
pub mod Screen
pub mod Deck
pub mod Event
pub mod Table
pub mod History
pub mod Repl
pub mod HandReader
pub mod Admin
pub mod Examples
