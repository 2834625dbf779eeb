-- ===== src/Table/Repeating.antt =====
-- The decision that `EvalPlayerDecision` returns, evaluated in place of the one that it was given.
use mathlib.Core.Path.{subst}
use uknow.Prelude.{
  ap, ◌∙◌, ◌≢◌, ◌≡◌, refl, sym, ◌⊎◌, inl, inr, String, Outcome, ok, err, panic, arith,
}
use uknow.Deck.{Sorter}
use uknow.Table.{
  TableError, PlayerDecision, PlayerDecisionKind, pull_from_deck, play_hand_card, pass,
  wild_card_choose_color, do_challenge, dont_challenge, unknown_kind,
}
use uknow.Table.Game.{Game, M, ◌>>=◌, return, run}
use uknow.Table.Eval.{pull_card}
use uknow.Table.Decide.{
  eval_pull, eval_pass, eval_play, eval_choose_color, eval_do_challenge, eval_dont_challenge,
  eval_kind, eval_player_decision,
}

-- A call that returns nothing but the value.
record Returns {A : Type 0} (a : A) (m : M A) : Type 0 where
  pub at : (g : Game) (b : A) → (m g).0 ≡ ok b → b ≡ a

Returns-return : {A : Type 0} (a : A) → Returns a (return a)
unfolding return
Returns-return a = record { at = λ g b e. ground arith }

Returns-rest :
    {A B : Type 0} (b c : B) (r : Outcome TableError A) (f : A → M B) (g : Game)
    → ((a : A) → Returns b (f a))
    → (◌>>=◌ (λ _. (r, g)) f g).0 ≡ ok c
    → c ≡ b
unfolding ◌>>=◌
Returns-rest b c (ok a) f g k e = (k a).at g c e
Returns-rest b c (err x) f g k e = ground arith
Returns-rest b c panic f g k e = ground arith

Returns-bind :
    {A B : Type 0} (b : B) (m : M A) (f : A → M B)
    → ((a : A) → Returns b (f a))
    → Returns b (m >>= f)
unfolding ◌>>=◌
Returns-bind b m f k = record { at = λ g c e. Returns-rest b c (m g).0 f (m g).1 k e }

ruleset returns_rules = (Returns-return, Returns-bind)

eval_pass-Returns : (name : String) (d : PlayerDecision) → Returns d (eval_pass name d)
unfolding eval_pass
eval_pass-Returns name d = search returns_rules depth 14

eval_play-Returns :
    (s : Sorter) (name : String) (d : PlayerDecision) → Returns d (eval_play s name d)
unfolding eval_play
eval_play-Returns s name d = search returns_rules depth 14

eval_choose_color-Returns :
    (name : String) (d : PlayerDecision) → Returns d (eval_choose_color name d)
unfolding eval_choose_color
eval_choose_color-Returns name d = search returns_rules depth 14

eval_do_challenge-Returns :
    (s : Sorter) (name : String) (d : PlayerDecision) → Returns d (eval_do_challenge s name d)
unfolding eval_do_challenge
eval_do_challenge-Returns s name d = search returns_rules depth 14

eval_dont_challenge-Returns :
    (s : Sorter) (name : String) (d : PlayerDecision) → Returns d (eval_dont_challenge s name d)
unfolding eval_dont_challenge
eval_dont_challenge-Returns s name d = search returns_rules depth 14

-- The second decision does what the first one does.
abbrev pub Repeats : Sorter → String → PlayerDecision → PlayerDecision → Game → Type 0
Repeats s name d d' g =
    ((eval_player_decision s name d' g).0 ≡ ok d')
    × ((eval_player_decision s name d' g).1 ≡ (eval_player_decision s name d g).1)

same_decision :
    (s : Sorter) (name : String) (d d' : PlayerDecision) (g : Game)
    → (eval_player_decision s name d g).0 ≡ ok d'
    → d' ≡ d
    → Repeats s name d d' g
same_decision s name d d' g e q = subst (λ x. Repeats s name d x g) (sym q) (e ∙ ap ok q, refl)

pull-Repeats :
    (s : Sorter) (name : String) (d d' : PlayerDecision) (g : Game)
    → d.kind ≡ pull_from_deck
    → (eval_player_decision s name d g).0 ≡ ok d'
    → Repeats s name d d' g
unfolding run eval_player_decision eval_pull pull_card
pull-Repeats s name d d' g k e = ground arith

same_kind :
    (s : Sorter) (name : String) (d d' : PlayerDecision) (g : Game) (k : PlayerDecisionKind)
    → k ≢ pull_from_deck
    → (eval_kind s name d k g).0 ≡ ok d'
    → d' ≡ d
unfolding return
same_kind s name d d' g pull_from_deck n e = absurd (n refl)
same_kind s name d d' g play_hand_card n e = (eval_play-Returns s name d).at g d' e
same_kind s name d d' g pass n e = (eval_pass-Returns name d).at g d' e
same_kind s name d d' g wild_card_choose_color n e = (eval_choose_color-Returns name d).at g d' e
same_kind s name d d' g do_challenge n e = (eval_do_challenge-Returns s name d).at g d' e
same_kind s name d d' g dont_challenge n e = (eval_dont_challenge-Returns s name d).at g d' e
same_kind s name d d' g (unknown_kind k) n e = ground (arith, e)

pull_or_not : (k : PlayerDecisionKind) → (k ≡ pull_from_deck) ⊎ (k ≢ pull_from_deck)
pull_or_not k = ground arith

-- The decision that an evaluation returns, evaluated at the same table, succeeds and does the same.
pub eval_player_decision-Repeats :
    (s : Sorter) (name : String) (d d' : PlayerDecision) (g : Game)
    → (eval_player_decision s name d g).0 ≡ ok d'
    → Repeats s name d d' g
unfolding eval_player_decision
eval_player_decision-Repeats s name d d' g e = elim (pull_or_not d.kind) [
  | inl k ↦ pull-Repeats s name d d' g k e
  | inr n ↦ same_decision s name d d' g e (same_kind s name d d' g d.kind n e)
]
