-- ===== src/Screen/Log.antt =====
-- player_client_ui.go: the event log keeps its newest lines.
use mathlib.Core.List.{append-nil, append_assoc}
use uknow.Prelude.{
  ℕ, zero, suc, ◌+◌, ◌-◌, ◌≤◌, ◌≡◌, refl, sym, ap, ◌∙◌, inl, inr, String, List, [], ◌∷◌, ◌++◌, ltb,
  length, length-append, length-drop, drop, split_lines, arith, Bool-cases,
}
use uknow.Screen.{ClientUi, append_event_log_no_lock, newest_first, max_lines_in_event_log}

-- The last n lines.
abbrev pub last_lines : ℕ → List String → List String
last_lines n lines = drop (length lines - n) lines

drop-append_left :
    (k : ℕ) (xs ys : List String) → k ≤ length xs → drop k xs ++ ys ≡ drop k (xs ++ ys)
drop-append_left zero xs ys h = refl
drop-append_left (suc k) [] ys h = absurd (omega arith)
drop-append_left (suc k) (x ∷ xs) ys h = drop-append_left k xs ys (omega arith)

drop-nil : (n : ℕ) → drop {A = String} n [] ≡ []
drop-nil zero = refl
drop-nil (suc n) = refl

drop-drop : (j k : ℕ) (xs : List String) → drop j (drop k xs) ≡ drop (k + j) xs
drop-drop j zero xs = ap (λ n. drop n xs) (omega arith)
drop-drop zero (suc k) [] = sym (drop-nil (suc k + 0))
drop-drop (suc j) (suc k) [] = sym (drop-nil (suc k + suc j))
drop-drop j (suc k) (x ∷ xs) =
    drop-drop j k xs ∙ let e : suc (k + j) ≡ suc k + j = omega arith in ap (λ n. drop n (x ∷ xs)) e

last_lines-append :
    (n : ℕ) (xs ys : List String) → last_lines n (last_lines n xs ++ ys) ≡ last_lines n (xs ++ ys)
last_lines-append n xs ys =
    let joined = drop-append_left (length xs - n) xs ys (omega arith) in
    ap (last_lines n) joined
    ∙ drop-drop (length (drop (length xs - n) (xs ++ ys)) - n) (length xs - n) (xs ++ ys)
    ∙ ap (λ k. drop k (xs ++ ys))
        (omega (arith, length-drop (length xs - n) (xs ++ ys), length-append xs ys))

kept_lines :
    (s : String) (u : ClientUi)
    → (append_event_log_no_lock s u).event_log_lines
      ≡ last_lines max_lines_in_event_log (u.event_log_lines ++ split_lines "" s)
unfolding append_event_log_no_lock
kept_lines s u =
    let lines = u.event_log_lines ++ split_lines "" s in
    elim (Bool-cases (ltb 50 (length lines))) [
      | inl more ↦ rw more refl
      | inr few ↦
          rw few (ap (λ k. drop k lines) (let e : 0 ≡ length lines - 50 = ground (arith, few) in e))
    ]

-- The texts are appended one after the other.
abbrev pub append_all : List String → ClientUi → ClientUi
append_all [] u = u
append_all (s ∷ texts) u = append_all texts (append_event_log_no_lock s u)

abbrev pub all_lines : List String → List String
all_lines [] = []
all_lines (s ∷ texts) = split_lines "" s ++ all_lines texts

append_all-lines :
    (texts : List String) (lines : List String) (u : ClientUi)
    → u.event_log_lines ≡ last_lines max_lines_in_event_log lines
    → (append_all texts u).event_log_lines
      ≡ last_lines max_lines_in_event_log (lines ++ all_lines texts)
append_all-lines [] lines u e = rw append-nil e
append_all-lines (s ∷ texts) lines u e =
    append_all-lines texts (lines ++ split_lines "" s) (append_event_log_no_lock s u) (
      kept_lines s u
      ∙ ap (λ ls. last_lines max_lines_in_event_log (ls ++ split_lines "" s)) e
      ∙ last_lines-append max_lines_in_event_log lines (split_lines "" s))
    ∙ ap (last_lines max_lines_in_event_log)
        (append_assoc lines (split_lines "" s) (all_lines texts))

shown_text :
    (s : String) (u : ClientUi)
    → (append_event_log_no_lock s u).event_log_text
      ≡ newest_first (append_event_log_no_lock s u).event_log_lines
unfolding append_event_log_no_lock
shown_text s u = sym (ap newest_first (kept_lines s u))

-- Whatever texts are appended to an empty log: it keeps the last 50 of all their lines, in their order,
-- so never more than 50, and after each text the widget shows the lines that are kept, newest first.
pub append_all-last_lines :
    (texts : List String) (s : String) (u : ClientUi)
    → u.event_log_lines ≡ []
    → let v = append_all (texts ++ s ∷ []) u in
      (v.event_log_lines ≡ last_lines max_lines_in_event_log (all_lines (texts ++ s ∷ [])))
      × (length v.event_log_lines ≤ max_lines_in_event_log)
      × (v.event_log_text ≡ newest_first v.event_log_lines)
append_all-last_lines texts s u e =
    let v = append_all (texts ++ s ∷ []) u in
    let q : v.event_log_lines ≡ last_lines 50 (all_lines (texts ++ s ∷ [])) =
      append_all-lines (texts ++ s ∷ []) [] u e in
    (
      q,
      omega (
        arith,
        ap length q,
        length-drop (length (all_lines (texts ++ s ∷ [])) - 50) (all_lines (texts ++ s ∷ [])),
      ),
      last_text texts u,
    )
  where
    last_text :
        (texts : List String) (u : ClientUi)
        → (append_all (texts ++ s ∷ []) u).event_log_text
          ≡ newest_first (append_all (texts ++ s ∷ []) u).event_log_lines
    last_text [] u = shown_text s u
    last_text (t ∷ texts) u = last_text texts (append_event_log_no_lock t u)
