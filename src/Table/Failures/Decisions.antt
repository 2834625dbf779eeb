-- ===== src/Table/Failures/Decisions.antt =====
-- What an error of `EvalPlayerDecision` leaves of the table.
use uknow.Prelude.{
  ◌≤◌, ◌≡◌, refl, ◌∙◌, ◌≢◌, Bool, true, false, String, Outcome, ok, err, panic, arith, length,
}
use uknow.Card.{Card}
use uknow.Deck.{Sorter}
use uknow.Table.{
  start_of_turn, TableError, PlayerDecision, PlayerDecisionKind, pull_from_deck, play_hand_card,
  pass, wild_card_choose_color, do_challenge, dont_challenge, unknown_kind,
}
use uknow.Table.Game.{Game, M, ◌>>=◌, ◌>>◌, return, lift, require, get_table, run}
use uknow.Table.Draws.{pull_cards-enough}
use uknow.Table.Eval.{pull_card, pull_cards, set_neighbor_as_next_player}
use uknow.Table.Play.{check_play, try_play_card}
use uknow.Table.Decide.{
  eval_pull, eval_pass, eval_play, eval_choose_color, challenge_succeeds, challenge_fails,
  judge_challenge, eval_do_challenge, eval_dont_challenge, eval_kind, eval_player_decision,
}
use uknow.Table.Failures.{
  Sure, Sure-bind, Sure-return, Sure-get_table, Sure-send, set_neighbor-Sure,
  set_required_color-Sure, finish_play-Sure, drop_card-Sure, check_if_player_has_won-Sure,
  choose_color_next-Sure,
}

-- A call that leaves the table as it is.
record Peeks {A : Type 0} (m : M A) : Type 0 where
  pub at : (g : Game) → (m g).1.table ≡ g.table

-- A call that leaves the table as it is where it returns an error.
record Clean {A : Type 0} (m : M A) : Type 0 where
  pub at : (g : Game) (e : TableError) → (m g).0 ≡ err e → (m g).1.table ≡ g.table

Peeks-lift : {A : Type 0} (r : Outcome TableError A) → Peeks (lift r)
unfolding lift
Peeks-lift r = record { at = λ g. refl }

Peeks-get_table : Peeks get_table
unfolding get_table
Peeks-get_table = record { at = λ g. refl }

Peeks-require : (b : Bool) (e : TableError) → Peeks (require b e)
unfolding require
Peeks-require true e = record { at = λ g. refl }
Peeks-require false e = record { at = λ g. refl }

Peeks-rest :
    {A B : Type 0} (r : Outcome TableError A) (f : A → M B) (g : Game)
    → ((a : A) → Peeks (f a))
    → (◌>>=◌ (λ _. (r, g)) f g).1.table ≡ g.table
unfolding ◌>>=◌
Peeks-rest (ok a) f g k = (k a).at g
Peeks-rest (err x) f g k = refl
Peeks-rest panic f g k = refl

Peeks-bind :
    {A B : Type 0} (m : M A) (f : A → M B) → Peeks m → ((a : A) → Peeks (f a)) → Peeks (m >>= f)
unfolding ◌>>=◌
Peeks-bind m f first second = record { at = λ g. Peeks-rest (m g).0 f (m g).1 second ∙ first.at g }

check_play-Peeks : (name : String) (c : Card) → Peeks (check_play name c)
unfolding check_play
check_play-Peeks name c = search (Peeks-lift, Peeks-get_table, Peeks-require, Peeks-bind) depth 12

Clean-Sure : {A : Type 0} (m : M A) → Sure m → Clean m
Clean-Sure m k = record { at = λ g e h. absurd (k.at g e h) }

Clean-after_peek :
    {A B : Type 0} (r : Outcome TableError A) (f : A → M B) (g : Game) (e : TableError)
    → ((a : A) → Clean (f a))
    → (◌>>=◌ (λ _. (r, g)) f g).0 ≡ err e
    → (◌>>=◌ (λ _. (r, g)) f g).1.table ≡ g.table
unfolding ◌>>=◌
Clean-after_peek (ok a) f g e k h = (k a).at g e h
Clean-after_peek (err x) f g e k h = refl
Clean-after_peek panic f g e k h = refl

Clean-peek :
    {A B : Type 0} (m : M A) (f : A → M B) → Peeks m → ((a : A) → Clean (f a)) → Clean (m >>= f)
unfolding ◌>>=◌
Clean-peek m f first second = record {
  at = λ g e h. Clean-after_peek (m g).0 f (m g).1 e second h ∙ first.at g;
}

clean_before-Sure :
    {A B : Type 0} (r : Outcome TableError A) (f : A → M B) (g h : Game) (e : TableError)
    → ((x : TableError) → r ≡ err x → h.table ≡ g.table)
    → ((a : A) → Sure (f a))
    → (◌>>=◌ (λ _. (r, h)) f g).0 ≡ err e
    → (◌>>=◌ (λ _. (r, h)) f g).1.table ≡ g.table
unfolding ◌>>=◌
clean_before-Sure (ok a) f g h e k s q = absurd ((s a).at h e q)
clean_before-Sure (err x) f g h e k s q = k x refl
clean_before-Sure panic f g h e k s q = ground arith

Sure-Clean :
    {A B : Type 0} (m : M A) (f : A → M B) → Clean m → ((a : A) → Sure (f a)) → Clean (m >>= f)
unfolding ◌>>=◌
Sure-Clean m f first second = record {
  at = λ g e h. clean_before-Sure (m g).0 f g (m g).1 e (first.at g) second h;
}

ruleset clean_rules = (
  Peeks-lift, Peeks-get_table, Peeks-require, check_play-Peeks, Clean-Sure, Clean-peek, Sure-Clean,
  Sure-bind, Sure-return, Sure-get_table, Sure-send, set_neighbor-Sure, set_required_color-Sure,
  finish_play-Sure, drop_card-Sure, check_if_player_has_won-Sure, choose_color_next-Sure,
)

eval_pull-Clean : (s : Sorter) (name : String) (d : PlayerDecision) → Clean (eval_pull s name d)
unfolding run eval_pull pull_card
eval_pull-Clean s name d = record { at = λ g e h. ground arith }

eval_pass-Clean : (name : String) (d : PlayerDecision) → Clean (eval_pass name d)
unfolding eval_pass
eval_pass-Clean name d = search clean_rules depth 14

try_play_card-Clean : (s : Sorter) (name : String) (c : Card) → Clean (try_play_card s name c)
unfolding try_play_card
try_play_card-Clean s name c = search clean_rules depth 12

eval_play-Clean : (s : Sorter) (name : String) (d : PlayerDecision) → Clean (eval_play s name d)
unfolding eval_play
eval_play-Clean s name d = search (clean_rules, try_play_card-Clean) depth 14

eval_choose_color-Clean : (name : String) (d : PlayerDecision) → Clean (eval_choose_color name d)
unfolding eval_choose_color
eval_choose_color-Clean name d = search clean_rules depth 14

Sure-after :
    {A : Type 0} (r : Outcome TableError (Unit {0})) (k : M A) (g : Game) (e : TableError)
    → r ≡ ok tt
    → Sure k
    → (◌>>=◌ (λ _. (r, g)) (λ _. k) g).0 ≢ err e
unfolding ◌>>=◌
Sure-after r k g e q sure = rw q (sure.at g e)

-- A call that succeeds, behind a check and before a call that returns no error.
Clean-guarded :
    {A : Type 0} (b : Bool) (x : TableError) (m : M (Unit {0})) (k : M A) (g : Game)
    (e : TableError)
    → (m g).0 ≡ ok tt
    → Sure k
    → ((require b x >> (m >> k)) g).0 ≡ err e
    → ((require b x >> (m >> k)) g).1.table ≡ g.table
unfolding ◌>>=◌ require
Clean-guarded true x m k g e q sure h = absurd (Sure-after (m g).0 k (m g).1 e q sure h)
Clean-guarded false x m k g e q sure h = refl

challenge_succeeds-enough :
    (s : Sorter) (name : String) (g : Game)
    → 4 ≤ length g.table.draw_deck
    → (challenge_succeeds s name g).0 ≡ ok tt
unfolding run challenge_succeeds
challenge_succeeds-enough s name g h = (pull_cards-enough s 4 _ _ _ h).0

challenge_fails-enough :
    (s : Sorter) (name : String) (g : Game)
    → 4 ≤ length g.table.draw_deck
    → (challenge_fails s name g).0 ≡ ok tt
unfolding run challenge_fails
challenge_fails-enough s name g h = (pull_cards-enough s 4 _ _ _ h).0

judge_challenge-enough :
    (s : Sorter) (name : String) (g : Game)
    → 4 ≤ length g.table.draw_deck
    → (judge_challenge s name g).0 ≡ ok tt
unfolding judge_challenge
judge_challenge-enough s name g h =
    ground (arith, challenge_fails-enough s name g h, challenge_succeeds-enough s name g h)

set_next-Sure :
    {A : Type 0} (name : String) (a : A)
    → Sure (set_neighbor_as_next_player name start_of_turn >> return a)
set_next-Sure name a = search clean_rules depth 8

module _ (s : Sorter) (name : String) (d : PlayerDecision) (g : Game) (e : TableError) where
  eval_do_challenge-enough :
      4 ≤ length g.table.draw_deck
      → (eval_do_challenge s name d g).0 ≡ err e
      → (eval_do_challenge s name d g).1.table ≡ g.table
  unfolding eval_do_challenge ◌>>=◌ get_table
  eval_do_challenge-enough h q =
      Clean-guarded _ _ (judge_challenge s name) _ g e (judge_challenge-enough s name g h)
        (set_next-Sure name d) q

  eval_dont_challenge-enough :
      4 ≤ length g.table.draw_deck
      → (eval_dont_challenge s name d g).0 ≡ err e
      → (eval_dont_challenge s name d g).1.table ≡ g.table
  unfolding eval_dont_challenge ◌>>=◌ get_table
  eval_dont_challenge-enough h q =
      Clean-guarded _ _ (pull_cards s 4 name _) _ g e (pull_cards-enough s 4 name _ g h).0
        (set_next-Sure name d) q

-- Whether a decision of the kind draws the cards of a WildDrawFour.
abbrev pub is_about_challenge : PlayerDecisionKind → Bool
is_about_challenge do_challenge = true
is_about_challenge dont_challenge = true
is_about_challenge _ = false

eval_kind-undone :
    (s : Sorter) (name : String) (d : PlayerDecision) (k : PlayerDecisionKind) (g : Game)
    (e : TableError)
    → (is_about_challenge k ≡ true → 4 ≤ length g.table.draw_deck)
    → (eval_kind s name d k g).0 ≡ err e
    → (eval_kind s name d k g).1.table ≡ g.table
unfolding return
eval_kind-undone s name d pull_from_deck g e h q = (eval_pull-Clean s name d).at g e q
eval_kind-undone s name d play_hand_card g e h q = (eval_play-Clean s name d).at g e q
eval_kind-undone s name d pass g e h q = (eval_pass-Clean name d).at g e q
eval_kind-undone s name d wild_card_choose_color g e h q = (eval_choose_color-Clean name d).at g e q
eval_kind-undone s name d do_challenge g e h q = eval_do_challenge-enough s name d g e (h refl) q
eval_kind-undone s name d dont_challenge g e h q =
    eval_dont_challenge-enough s name d g e (h refl) q
eval_kind-undone s name d (unknown_kind k) g e h q = ground arith

-- A decision that fails leaves the table as it was, unless it is about a challenge and the draw deck
-- has fewer than four cards.
pub eval_player_decision-undone :
    (s : Sorter) (name : String) (d : PlayerDecision) (g : Game) (e : TableError)
    → (is_about_challenge d.kind ≡ true → 4 ≤ length g.table.draw_deck)
    → (eval_player_decision s name d g).0 ≡ err e
    → (eval_player_decision s name d g).1.table ≡ g.table
unfolding eval_player_decision
eval_player_decision-undone s name d g e h q = eval_kind-undone s name d d.kind g e h q
