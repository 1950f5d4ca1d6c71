-- ===== src/Protocol/Peers/Queries.antt =====
-- The queries of the peer table after a frame was heard.
use gibberish.Prelude.{
  ℕ, ◌≤◌, ◌≡◌, ◌≢◌, refl, ap, Bool, false, none, some, List, [], ◌∷◌, length, ◌==◌, if◌then◌else◌,
  arith, ◌∙◌, sym, ◌&&◌, is_none, get_or, ne→==_false,
}
use gibberish.Prelude.Int.{ℤ}
use gibberish.Protocol.Peers.{
  PeerMetric, PeerTable, record_peer, get_peer, len, primary_peer, secondary_peer,
  peer_table_capacity,
}
use gibberish.Protocol.Peers.Slots.{table_of, find, heard, touch, record_peer-table_of}
use gibberish.Protocol.Peers.Recency.{IsTable, Distinct}

get_peer-table_of :
    (l : List PeerMetric) (j : ℕ)
    → length l ≤ peer_table_capacity
    → get_peer (table_of l) j ≡ (if j == 0 then none else find j l)
unfolding get_peer find
get_peer-table_of [] j h = ground arith
get_peer-table_of (a ∷ []) j h = ground arith
get_peer-table_of (a ∷ b ∷ []) j h = ground arith
get_peer-table_of (a ∷ b ∷ c ∷ []) j h = ground arith
get_peer-table_of (a ∷ b ∷ c ∷ d ∷ []) j h = ground arith
get_peer-table_of (a ∷ b ∷ c ∷ d ∷ e ∷ l) j h = absurd (omega arith)

-- The two entries that the display shows, after `touch`.
primary_peer-touch :
    (l : List PeerMetric) (j : ℕ) (rssi : ℤ) (lqi : ℕ)
    → length l ≤ peer_table_capacity
    → primary_peer (table_of (touch j rssi lqi l)) ≡ some (heard j rssi lqi (find j l))
unfolding primary_peer touch heard find
primary_peer-touch [] j rssi lqi h = ground arith
primary_peer-touch (a ∷ []) j rssi lqi h = ground arith
primary_peer-touch (a ∷ b ∷ []) j rssi lqi h = ground arith
primary_peer-touch (a ∷ b ∷ c ∷ []) j rssi lqi h = ground arith
primary_peer-touch (a ∷ b ∷ c ∷ d ∷ []) j rssi lqi h = ground arith
primary_peer-touch (a ∷ b ∷ c ∷ d ∷ e ∷ l) j rssi lqi h = absurd (omega arith)

secondary_peer-touch :
    (l : List PeerMetric) (j : ℕ) (rssi : ℤ) (lqi : ℕ) (p : PeerMetric)
    → length l ≤ peer_table_capacity
    → primary_peer (table_of l) ≡ some p
    → p.node_id ≢ j
    → secondary_peer (table_of (touch j rssi lqi l)) ≡ some p
unfolding primary_peer secondary_peer touch heard find
secondary_peer-touch [] j rssi lqi p h e ne = ground arith
secondary_peer-touch (a ∷ []) j rssi lqi p h e ne = ground arith
secondary_peer-touch (a ∷ b ∷ []) j rssi lqi p h e ne = ground arith
secondary_peer-touch (a ∷ b ∷ c ∷ []) j rssi lqi p h e ne = ground arith
secondary_peer-touch (a ∷ b ∷ c ∷ d ∷ []) j rssi lqi p h e ne = ground arith
secondary_peer-touch (a ∷ b ∷ c ∷ d ∷ e' ∷ l) j rssi lqi p h e ne = absurd (omega arith)

-- Slot 0 of the table holds this node.
unfoldable pub is_oldest : PeerTable → ℕ → Bool
is_oldest t i = elim (get_or t.peers 0 none) [ none ↦ false | some p ↦ p.node_id == i ]

find-touch :
    (l : List PeerMetric) (i j : ℕ) (rssi : ℤ) (lqi : ℕ)
    → length l ≤ peer_table_capacity
    → Distinct l
    → i ≢ j
    → find i (touch j rssi lqi l) ≡ (
        if is_none (find j l) && (length l == 4 && is_oldest (table_of l) i)
        then none
        else find i l)
unfolding touch heard find is_oldest
find-touch [] i j rssi lqi h d ne = ground arith
find-touch (a ∷ []) i j rssi lqi h d ne = ground arith
find-touch (a ∷ b ∷ []) i j rssi lqi h d ne = ground arith
find-touch (a ∷ b ∷ c ∷ []) i j rssi lqi h d ne = ground arith
find-touch (a ∷ b ∷ c ∷ d' ∷ []) i j rssi lqi h d ne = ground arith
find-touch (a ∷ b ∷ c ∷ d' ∷ e ∷ l) i j rssi lqi h d ne = absurd (omega arith)

len-table_of : (l : List PeerMetric) → length l ≤ peer_table_capacity → len (table_of l) ≡ length l
unfolding len
len-table_of [] h = refl
len-table_of (a ∷ []) h = refl
len-table_of (a ∷ b ∷ []) h = refl
len-table_of (a ∷ b ∷ c ∷ []) h = refl
len-table_of (a ∷ b ∷ c ∷ d ∷ []) h = refl
len-table_of (a ∷ b ∷ c ∷ d ∷ e ∷ l) h = absurd (omega arith)

length-touch :
    (l : List PeerMetric) (j : ℕ) (rssi : ℤ) (lqi : ℕ)
    → length l ≤ peer_table_capacity
    → length (touch j rssi lqi l) ≤ peer_table_capacity
unfolding touch heard
length-touch [] j rssi lqi h = ground arith
length-touch (a ∷ []) j rssi lqi h = ground arith
length-touch (a ∷ b ∷ []) j rssi lqi h = ground arith
length-touch (a ∷ b ∷ c ∷ []) j rssi lqi h = ground arith
length-touch (a ∷ b ∷ c ∷ d ∷ []) j rssi lqi h = ground arith
length-touch (a ∷ b ∷ c ∷ d ∷ e ∷ l) j rssi lqi h = absurd (omega arith)

module _ (t : PeerTable) (l : List PeerMetric) (v : IsTable t l) (j : ℕ) (rssi : ℤ) (lqi : ℕ)
    (j≢0 : j ≢ 0) where
  after : record_peer t j rssi lqi ≡ table_of (touch j rssi lqi l)
  after =
      ap (λ u. record_peer u j rssi lqi) v.packed
      ∙ record_peer-table_of l j rssi lqi v.small
      ∙ ap (λ b. table_of (if b then l else touch j rssi lqi l)) (ne→==_false j 0 j≢0)

  found : get_peer t j ≡ find j l
  found =
      ap (λ u. get_peer u j) v.packed
      ∙ get_peer-table_of l j v.small
      ∙ ap (λ b. if b then none else find j l) (ne→==_false j 0 j≢0)

  -- In a reachable table the peer that was heard last is the primary one, with the link quality of
  -- that frame; its packet count goes on from what the table held of it, and starts at 1 otherwise.
  pub primary_peer-record_peer :
      primary_peer (record_peer t j rssi lqi) ≡ some (heard j rssi lqi (get_peer t j))
  primary_peer-record_peer = rw (after, found) (primary_peer-touch l j rssi lqi v.small)

  -- In a reachable table the peer that was primary before a frame of another node is the secondary
  -- one after it.
  pub secondary_peer-record_peer :
      (p : PeerMetric)
      → primary_peer t ≡ some p
      → p.node_id ≢ j
      → secondary_peer (record_peer t j rssi lqi) ≡ some p
  secondary_peer-record_peer p e ne =
      rw after (secondary_peer-touch l j rssi lqi p v.small (ap primary_peer (sym v.packed) ∙ e) ne)

  -- A frame of node `j` loses the entry of another node `i` only if `j` was unknown, the table was
  -- full, and `i` was the least recent of the four; in every other case the entry is unchanged.
  pub get_peer-record_peer_ne :
      (i : ℕ)
      → i ≢ 0
      → i ≢ j
      → get_peer (record_peer t j rssi lqi) i
        ≡ (if is_none (get_peer t j) && (len t == 4 && is_oldest t i) then none else get_peer t i)
  get_peer-record_peer_ne i i≢0 ne =
      let known =
        ap (λ u. get_peer u i) v.packed
        ∙ get_peer-table_of l i v.small
        ∙ ap (λ b. if b then none else find i l) (ne→==_false i 0 i≢0) in
      let count = ap len v.packed ∙ len-table_of l v.small in
      let now =
        get_peer-table_of (touch j rssi lqi l) i (length-touch l j rssi lqi v.small)
        ∙ ap (λ b. if b then none else find i (touch j rssi lqi l)) (ne→==_false i 0 i≢0) in
      let oldest = ap (λ u. is_oldest u i) v.packed in
      rw (after, found, count, known, now, oldest) (find-touch l i j rssi lqi v.small v.distinct ne)
