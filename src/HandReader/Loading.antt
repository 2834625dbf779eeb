-- ===== src/HandReader/Loading.antt =====
-- hand_reader/hand_reader.go: `LoadConfig`. The seeding of the random numbers is left out.
use uknow.Prelude.{
  ℕ, none, some, String, [], Outcome, ok, err, panic, ◌>>=◌, str_eq, if◌then◌else◌, insert, strip,
  trim_space,
}
use uknow.Table.{Table}
use uknow.HandReader.{
  Json, JsonMap, json_number, json_fraction, json_string, no_entry, entry, ReadError,
  cast_hand_desc_map, parse_preset_discard_pile_top, expected_pile_size, unknown_key,
}
use uknow.HandReader.Making.{Counts, SerializedJson, make_table}

abbrev pile_size_of : Json → Outcome ReadError ℕ
pile_size_of (json_number n) = ok n
pile_size_of (json_fraction n) = ok n
pile_size_of _ = err expected_pile_size

-- `value.(float64)`, which panics on another type.
abbrev seed_of : Json → Outcome ReadError ℕ
seed_of (json_number n) = ok n
seed_of (json_fraction n) = ok n
seed_of _ = panic

-- `strings.TrimSpace(value.(string))`
abbrev player_of : Json → Outcome ReadError String
player_of (json_string s) = ok (trim_space s)
player_of _ = panic

-- A key that is not of a player.
unfoldable pub load_setting : String → Json → SerializedJson → Outcome ReadError SerializedJson
load_setting key value j =
    if str_eq key "discarded_pile_size"
    then pile_size_of value >>= (λ n. ok (record j { discarded_pile_size = n }))
    else if str_eq key "shuffle_seed"
    then seed_of value >>= (λ _. ok j)
    else if str_eq key "player_of_next_turn"
    then player_of value >>= (λ name. ok (record j { player_to_draw = name }))
    else if str_eq key "preset_discard_pile_top"
    then parse_preset_discard_pile_top value
      >>= (λ pile. ok (record j { preset_discard_pile_top = pile }))
    else err (unknown_key key)

unfoldable pub load_entry : String → Json → SerializedJson → Outcome ReadError SerializedJson
load_entry key value j = elim (strip "player." key) [
  | some player_name ↦ do
    desc ← cast_hand_desc_map value
    ok (record j { hand_desc_of_player = insert player_name desc j.hand_desc_of_player })
  | none ↦ load_setting key value j
]

-- The loop over the entries, in the order of the list.
unfoldable pub load_entries : JsonMap → SerializedJson → Outcome ReadError SerializedJson
load_entries no_entry j = ok j
load_entries (entry key value rest) j = do j' ← load_entry key value j; load_entries rest j'

unfoldable pub load_config : (Counts → Counts) → JsonMap → Table → Outcome ReadError Table
load_config arrange entries initialized_table = do
  j ← load_entries entries (record {
    hand_desc_of_player = [];
    discarded_pile_size = 0;
    player_to_draw = "";
    preset_discard_pile_top = [];
  })
  make_table arrange j initialized_table
