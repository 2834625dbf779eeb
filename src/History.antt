-- ===== src/History.antt =====
-- player_client/command_history.go: the ring of the last commands and the position in it.
-- `none` is a panic: an index out of range, or a division by zero.
pub mod Contents
pub mod Browsing
use uknow.Prelude.{
  ℕ, zero, suc, ◌+◌, ◌-◌, ◌%◌, Bool, true, false, Option, none, some, String, List, ltb, leb, ◌==◌,
  if◌then◌else◌, length, get_elem?, set, replicate,
}
use uknow.Prelude.Int.{ℤ, pos, negsuc, ◌+ℤ◌, ◌%ℤ◌, neg, is_negative, leb_ℤ, eqb_ℤ}

pub record HistoryRing : Type 0 where
  pub buffer : List String
  pub head : ℕ
  pub size : ℕ

unfoldable pub new_history_ring : ℕ → HistoryRing
new_history_ring capacity = record { buffer = replicate capacity ""; head = 0; size = 0 }

-- `h.buffer[i] = item`
abbrev pub write : List String → ℕ → String → Option (List String)
write buffer i item = if ltb i (length buffer) then some (set buffer i item) else none

unfoldable pub overwrite : HistoryRing → String → Option HistoryRing
overwrite h item = elim (write h.buffer h.head item) [
  | none ↦ none
  | some buffer ↦ some (record h { buffer = buffer; head = (h.head + 1) % length buffer })
]

unfoldable pub append_item : HistoryRing → String → Option HistoryRing
append_item h item =
    if length h.buffer == 0
    then none
    else elim (write h.buffer ((h.head + h.size) % length h.buffer) item) [
      | none ↦ none
      | some buffer ↦ some (record h { buffer = buffer; size = h.size + 1 })
    ]

unfoldable pub push : HistoryRing → String → Option HistoryRing
unfolding overwrite append_item
push h item = if h.size == length h.buffer then overwrite h item else append_item h item

abbrev pub len : HistoryRing → ℕ
len h = h.size

-- The index of the current item, plus 1.
abbrev pub HistoryPos : Type 0
HistoryPos = ℤ

unfoldable pub current_item_pos : HistoryPos → ℤ
unfolding ◌+ℤ◌
current_item_pos p = p +ℤ negsuc 0

abbrev pub reset : HistoryPos
reset = pos 0

unfoldable pub clamp_int : ℤ → ℤ → ℤ → ℤ
clamp_int n lo hi = let m = if leb_ℤ hi n then hi else n in if leb_ℤ m lo then lo else m

-- `r.buffer[(r.head + r.size - 1 - cp) % bufLen]`
unfoldable pub item_at : HistoryRing → ℤ → Option String
unfolding ◌+ℤ◌ ◌%ℤ◌ neg
item_at r cp =
    if length r.buffer == 0
    then none
    else elim ((pos (r.head + r.size) +ℤ negsuc 0 +ℤ neg cp) %ℤ length r.buffer) [
      | pos i ↦ get_elem? r.buffer i
      | negsuc i ↦ none
    ]

-- The position moves to the item at n, or to the nearest one, and that item is shown.
unfoldable pub move_to : HistoryRing → ℤ → Option (HistoryPos × String × Bool)
move_to r n =
    let cp = clamp_int n (pos 0) (pos r.size +ℤ negsuc 0) in
    elim (item_at r cp) [ none ↦ none | some item ↦ some (cp +ℤ pos 1, item, true) ]

-- On reset, the position is -1 and the next one is 0.
unfoldable pub get_older : HistoryPos → HistoryRing → Option (HistoryPos × String × Bool)
get_older p r =
    let on_reset = eqb_ℤ (current_item_pos p) (negsuc 0) in
    let cp = if on_reset then pos 0 else current_item_pos p in
    if eqb_ℤ cp (pos r.size)
    then some (p, "<START_OF_HISTORY>", false)
    else move_to r (if on_reset then cp else cp +ℤ pos 1)

unfoldable pub get_newer : HistoryPos → HistoryRing → Option (HistoryPos × String × Bool)
get_newer p r =
    let cp = current_item_pos p in
    if leb_ℤ cp (pos 0) then some (p, "<END_OF_HISTORY>", false) else move_to r (cp +ℤ negsuc 0)

unfoldable pub push_reset : HistoryRing → String → Option (HistoryPos × HistoryRing)
unfolding push
push_reset r item = elim (push r item) [ none ↦ none | some r' ↦ some (reset, r') ]
