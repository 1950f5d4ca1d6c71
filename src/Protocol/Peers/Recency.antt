-- ===== src/Protocol/Peers/Recency.antt =====
-- What the peer table promises to the display: no peer twice, the peer heard last comes first, and
-- a peer is dropped only when it is the least recent of four and a fifth one is heard.
use gibberish.Prelude.{
  ℕ, ◌+◌, ◌≤◌, ◌≡◌, ◌≢◌, refl, ap, none, some, List, [], ◌∷◌, ◌++◌, length, drop, ◌==◌,
  if◌then◌else◌, arith, All, ◌∙◌, sym, Bool-cases, inl, inr, eq→==, length-append, Option-cases,
  subst, ==→eq,
}
use gibberish.Prelude.Int.{ℤ}
use gibberish.Protocol.Peers.{PeerMetric, PeerTable, new_table, record_peer, peer_table_capacity}
use gibberish.Protocol.Peers.Slots.{table_of, find, without, heard, touch, record_peer-table_of}

-- No peer of the list has this node id.
abbrev pub Absent : ℕ → List PeerMetric → Type 0
Absent node_id l = All (λ p. p.node_id ≢ node_id) l

abbrev pub Distinct : List PeerMetric → Type 0
Distinct [] = Unit {0}
Distinct (p ∷ l) = Absent p.node_id l × Distinct l

-- The tables that the firmware can reach: packed at the front, no node twice, no node 0.
pub record IsTable (t : PeerTable) (l : List PeerMetric) : Type 0 where
  pub packed : t ≡ table_of l
  pub small : length l ≤ peer_table_capacity
  pub distinct : Distinct l
  pub no_zero : Absent 0 l

Absent-without : (i j : ℕ) (l : List PeerMetric) → Absent i l → Absent i (without j l)
unfolding without
Absent-without i j [] h = h
Absent-without i j (p ∷ l) h = ground (arith, Absent-without i j l)

Distinct-without : (j : ℕ) (l : List PeerMetric) → Distinct l → Distinct (without j l)
unfolding without
Distinct-without j [] h = h
Distinct-without j (p ∷ l) h = ground (arith, Distinct-without j l, Absent-without p.node_id j l)

Absent-without_self : (j : ℕ) (l : List PeerMetric) → Distinct l → Absent j (without j l)
unfolding without
Absent-without_self j [] h = h
Absent-without_self j (p ∷ l) h = elim (Bool-cases (p.node_id == j)) [
  | inl e ↦ rw e (subst (λ k. Absent k l) (==→eq p.node_id j e) h.0)
  | inr ne ↦ rw ne ((λ same. cc (eq→== p.node_id j same)), Absent-without_self j l h.1)
]

Absent-append_one :
    (i : ℕ) (l : List PeerMetric) (p : PeerMetric)
    → Absent i l
    → p.node_id ≢ i
    → Absent i (l ++ (p ∷ []))
Absent-append_one i [] p h ne = (ne, tt)
Absent-append_one i (q ∷ l) p h ne = (h.0, Absent-append_one i l p h.1 ne)

Distinct-append_one :
    (l : List PeerMetric) (p : PeerMetric)
    → Distinct l
    → Absent p.node_id l
    → Distinct (l ++ (p ∷ []))
Distinct-append_one [] p h a = (tt, tt)
Distinct-append_one (q ∷ l) p h a =
    (Absent-append_one q.node_id l p h.0 (λ e. a.0 (sym e)), Distinct-append_one l p h.1 a.1)

node_id-find : (j : ℕ) (l : List PeerMetric) (p : PeerMetric) → find j l ≡ some p → p.node_id ≡ j
unfolding find
node_id-find j [] p h = cc
node_id-find j (q ∷ l) p h = ground (arith, node_id-find j l p)

Absent-find : (j : ℕ) (l : List PeerMetric) → find j l ≡ none → Absent j l
unfolding find
Absent-find j [] h = tt
Absent-find j (q ∷ l) h = ground (arith, Absent-find j l)

length-without :
    (j : ℕ) (l : List PeerMetric) (p : PeerMetric)
    → find j l ≡ some p
    → length (without j l) + 1 ≡ length l
unfolding find without
length-without j [] p h = cc
length-without j (q ∷ l) p h = ground (arith, length-without j l p)

Distinct-drop : (l : List PeerMetric) → Distinct l → Distinct (drop 1 l)
Distinct-drop [] h = h
Distinct-drop (p ∷ l) h = h.1

Absent-drop : (j : ℕ) (l : List PeerMetric) → Absent j l → Absent j (drop 1 l)
Absent-drop j [] h = h
Absent-drop j (p ∷ l) h = h.1

-- The list that makes room for one more peer.
abbrev room : List PeerMetric → List PeerMetric
room l = if length l == peer_table_capacity then drop 1 l else l

room-IsTable :
    (l : List PeerMetric) (j : ℕ)
    → length l ≤ peer_table_capacity
    → Distinct l
    → Absent 0 l
    → Absent j l
    → (length (room l) ≤ 3) × Distinct (room l) × Absent 0 (room l) × Absent j (room l)
room-IsTable [] j n d z a = ground arith
room-IsTable (p ∷ l) j n d z a = ground arith

touch-new :
    (node_id : ℕ) (rssi : ℤ) (lqi : ℕ) (l : List PeerMetric)
    → find node_id l ≡ none
    → touch node_id rssi lqi l ≡ room l ++ (heard node_id rssi lqi none ∷ [])
unfolding touch
touch-new node_id rssi lqi l e = ground arith

touch-known :
    (node_id : ℕ) (rssi : ℤ) (lqi : ℕ) (l : List PeerMetric) (p : PeerMetric)
    → find node_id l ≡ some p
    → touch node_id rssi lqi l ≡ without node_id l ++ (heard node_id rssi lqi (some p) ∷ [])
unfolding touch
touch-known node_id rssi lqi l p e = ground arith

touch-IsTable :
    (node_id : ℕ) (rssi : ℤ) (lqi : ℕ) (l : List PeerMetric)
    → node_id ≢ 0
    → length l ≤ peer_table_capacity
    → Distinct l
    → Absent 0 l
    → let l' = touch node_id rssi lqi l in
      (length l' ≤ peer_table_capacity) × Distinct l' × Absent 0 l'
unfolding touch heard
touch-IsTable node_id rssi lqi l ne n d z = elim (Option-cases (find node_id l)) [
  | inl e ↦
      let r = room-IsTable l node_id n d z (Absent-find node_id l e) in
      let q = heard node_id rssi lqi none in
      rw (touch-new node_id rssi lqi l e) (
        omega (arith, length-append {0} (room l) (q ∷ []), r.0),
        Distinct-append_one (room l) q r.1 r.3,
        Absent-append_one 0 (room l) q r.2 ne,
      )
  | inr (p, e) ↦
      let q = heard node_id rssi lqi (some p) in
      let same = node_id-find node_id l p e in
      let w = without node_id l in
      rw (touch-known node_id rssi lqi l p e) (
        omega (arith, length-append {0} w (q ∷ []), length-without node_id l p e),
        Distinct-append_one w q (Distinct-without node_id l d)
            (rw same (Absent-without_self node_id l d)),
        Absent-append_one 0 w q (Absent-without 0 node_id l z) (λ h. ne (sym same ∙ h)),
      )
]

-- Recording a peer keeps the table packed, with at most four peers, no node twice and no node 0.
pub record_peer-IsTable :
    (t : PeerTable) (l : List PeerMetric) (node_id : ℕ) (rssi : ℤ) (lqi : ℕ)
    → IsTable t l
    → IsTable
        (record_peer t node_id rssi lqi)
        (if node_id == 0 then l else touch node_id rssi lqi l)
record_peer-IsTable t l node_id rssi lqi v =
    let step =
      ap (λ u. record_peer u node_id rssi lqi) v.packed
      ∙ record_peer-table_of l node_id rssi lqi v.small in
    elim (Bool-cases (node_id == 0)) [
      | inl e ↦ rw e (record {
        packed = rw e at step;
        small = v.small;
        distinct = v.distinct;
        no_zero = v.no_zero;
      })
      | inr e ↦
          let k =
            touch-IsTable node_id rssi lqi l (λ h. cc (eq→== node_id 0 h)) v.small v.distinct
              v.no_zero in
          rw e (record { packed = rw e at step; small = k.0; distinct = k.1; no_zero = k.2 })
    ]

-- The frames heard, each with its node id, RSSI and LQI.
abbrev pub Heard : Type 0
Heard = ℕ × ℤ × ℕ

unfoldable pub hear_all : PeerTable → List Heard → PeerTable
hear_all t [] = t
hear_all t ((node_id, rssi, lqi) ∷ frames) = hear_all (record_peer t node_id rssi lqi) frames

hear_all-IsTable :
    (t : PeerTable) (l : List PeerMetric) (frames : List Heard)
    → IsTable t l
    → (l' : List PeerMetric) × IsTable (hear_all t frames) l'
unfolding hear_all
hear_all-IsTable t l [] v = (l, v)
hear_all-IsTable t l ((node_id, rssi, lqi) ∷ frames) v =
    hear_all-IsTable (record_peer t node_id rssi lqi) _ frames
      (record_peer-IsTable t l node_id rssi lqi v)

-- Whatever frames a fresh node hears, its peer table is packed at the front and holds at most four
-- peers, none of them twice and none with the reserved node id 0.
pub reachable-IsTable :
    (frames : List Heard) → (l : List PeerMetric) × IsTable (hear_all new_table frames) l
unfolding new_table
reachable-IsTable frames =
    hear_all-IsTable new_table [] frames
      (record { packed = refl; small = omega arith; distinct = tt; no_zero = tt })
