-- ===== src/Usb/NodeId.antt =====
-- `parse_dongle_node_id` of apps/gibberish-daemon/src/transport.rs: the node id in a banner or a log line
-- of a dongle.
use gibberish.Prelude.{
  ℕ, ◌||◌, List, [], ◌∷◌, ◌++◌, Option, none, some, length, take, drop, ◌==◌, if◌then◌else◌,
}
use gibberish.Prelude.Bytes.{bytes_eq}
use gibberish.Usb.Text.{chars, is_whitespace, from_str_radix}

-- `line.find(pattern)`, then the slice behind the pattern
unfoldable pub behind : List ℕ → List ℕ → Option (List ℕ)
behind pattern [] = none
behind pattern (b ∷ line) =
    let later = behind pattern line in
    if bytes_eq (take (length pattern) (b ∷ line)) pattern
    then some (drop (length pattern) (b ∷ line))
    else later

-- The first piece of a `split` at a character and at whitespace.
unfoldable pub piece : ℕ → List (List ℕ) → List ℕ
piece stop [] = []
piece stop (c ∷ cs) =
    let rest = piece stop cs in if bytes_eq c (stop ∷ []) || is_whitespace c then [] else c ++ rest

-- One of the two attempts.
unfoldable pub id_behind : List ℕ → ℕ → List ℕ → Option ℕ
id_behind pattern stop line = elim (behind pattern line) [
  | none ↦ none
  | some remainder ↦
      let hex_part = piece stop (chars remainder) in
      if length hex_part == 8 then from_str_radix hex_part else none
]

-- `"[Node "`
abbrev pub node_pattern : List ℕ
node_pattern = 91 ∷ 78 ∷ 111 ∷ 100 ∷ 101 ∷ 32 ∷ []

-- `"Node ID: "`
abbrev pub node_id_pattern : List ℕ
node_id_pattern = 78 ∷ 111 ∷ 100 ∷ 101 ∷ 32 ∷ 73 ∷ 68 ∷ 58 ∷ 32 ∷ []

unfoldable pub parse_dongle_node_id : List ℕ → Option ℕ
parse_dongle_node_id line = elim (id_behind node_pattern 93 line) [
  | some id ↦ some id
  | none ↦ id_behind node_id_pattern 40 line
]
