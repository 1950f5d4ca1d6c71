-- ===== src/Protocol/Consts.antt =====
-- The constants of crates/gibberish-protocol/src/frame.rs.
use gibberish.Prelude.{ℕ, ◌+◌, ◌*◌, ◌/◌, ◌%◌, ◌-◌, Bool, List, [], ◌∷◌, ◌==◌, ◌||◌}

abbrev pub mhr_len : ℕ
mhr_len = 11

abbrev pub mesh_header_len : ℕ
mesh_header_len = 18

abbrev pub plaintext_chunk_len : ℕ
plaintext_chunk_len = 80

abbrev pub auth_tag_len : ℕ
auth_tag_len = 16

abbrev pub ciphertext_len : ℕ
ciphertext_len = plaintext_chunk_len + auth_tag_len

abbrev pub fcs_len : ℕ
fcs_len = 2

abbrev pub phy_mtu : ℕ
phy_mtu = mhr_len + mesh_header_len + ciphertext_len + fcs_len

-- "GIBB"
abbrev pub record_magic : List ℕ
record_magic = b'G' ∷ b'I' ∷ b'B' ∷ b'B' ∷ []

abbrev pub record_commit_marker : ℕ
record_commit_marker = 0xAA55

abbrev pub flag_clipboard : ℕ
flag_clipboard = 0x0004

abbrev pub flag_ack_req : ℕ
flag_ack_req = 0x0010

abbrev pub flag_telemetry : ℕ
flag_telemetry = 0x0020

abbrev pub flag_sack : ℕ
flag_sack = 0x0040

abbrev pub min_relay_lqi : ℕ
min_relay_lqi = 30

abbrev pub default_network_tag : ℕ
default_network_tag = 0x4749424245524953

abbrev pub swarm_network_tag : ℕ
swarm_network_tag = 0xD75118D87E4159D2

unfoldable pub is_valid_network_tag : ℕ → Bool
is_valid_network_tag tag = tag == default_network_tag || tag == swarm_network_tag

-- `255u16.saturating_sub(lqi)` stops at 0, and nothing below passes a `u16`.
unfoldable pub calculate_lqi_relay_jitter : ℕ → ℕ → ℕ
calculate_lqi_relay_jitter lqi random_val =
    let inv_lqi = 255 - lqi in
    let base_delay = 15 + inv_lqi * 35 / 255 in base_delay + random_val % 15
