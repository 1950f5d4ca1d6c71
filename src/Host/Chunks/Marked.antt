-- ===== src/Host/Chunks/Marked.antt =====
-- The bitmask of a SACK marks exactly the empty places, and walking over it picks their packets.
use gibberish.Prelude.{
  ℕ, zero, suc, ◌+◌, ◌-◌, ◌*◌, ◌≤◌, ◌<◌, ◌≡◌, inl, inr, refl, ap, ◌∙◌, sym, Bool, true, false, ◌&&◌,
  ◌||◌, Option, none, some, List, [], ◌∷◌, ◌++◌, length, get_elem?, arith, is_none, Bool-cases,
  if◌then◌else◌, leb, ◌==◌, append-nil, append_assoc, leb→le, ==→eq,
}
use gibberish.Protocol.Packet.{MeshPacket}
use gibberish.Protocol.Sack.{
  SackPayload, IsSack, sack_bitmask_bytes, mark_missing, is_missing, in_window,
}
use gibberish.Protocol.Sack.Marks.{is_missing-mark_missing, mark_missing-IsSack}
use gibberish.Protocol.Sack.Visits.{select, select-none}
use gibberish.Protocol.Sack.Closures.{each}
use gibberish.Host.Chunks.Sacks.{push_cached, mark_slots}

-- The cached packets of the chunks that the receiver does not have.
unfoldable pub lost : List (Option (List ℕ)) → List MeshPacket → List MeshPacket
lost [] packets = []
lost (chunk ∷ chunks) [] = []
lost (chunk ∷ chunks) (p ∷ packets) =
    let later = lost chunks packets in if is_none chunk then p ∷ later else later

-- Whether a place is there and empty.
unfoldable pub empty_at : List (Option (List ℕ)) → ℕ → Bool
empty_at [] i = false
empty_at (chunk ∷ chunks) zero = is_none chunk
empty_at (chunk ∷ chunks) (suc i) = empty_at chunks i

lost-nil : (chunks : List (Option (List ℕ))) → lost chunks [] ≡ []
unfolding lost
lost-nil [] = refl
lost-nil (chunk ∷ chunks) = refl

push_cached-none :
    (cached acc : List MeshPacket) (i : ℕ)
    → get_elem? cached i ≡ none
    → push_cached cached acc i ≡ acc
unfolding push_cached
push_cached-none cached acc i g = rw (push_cached, g) refl

push_cached-some :
    (cached acc : List MeshPacket) (i : ℕ) (p : MeshPacket)
    → get_elem? cached i ≡ some p
    → push_cached cached acc i ≡ acc ++ (p ∷ [])
unfolding push_cached
push_cached-some cached acc i p g = rw (push_cached, g) refl

here : (i : ℕ) → i ≡ i + 0
here i = omega arith

next : (i j : ℕ) → i + 1 + j ≡ i + suc j
next i j = omega arith

-- Reading the window from a place on picks the lost packets from there on.
pub push_cached-lost :
    (p : ℕ → Bool) (n i : ℕ) (chunks : List (Option (List ℕ)))
    (cached packets acc : List MeshPacket)
    → length chunks ≤ n
    → ((j : ℕ) → p (i + j) ≡ empty_at chunks j)
    → ((j : ℕ) → get_elem? cached (i + j) ≡ get_elem? packets j)
    → each (push_cached cached) acc (select p n i) ≡ acc ++ lost chunks packets
unfolding each lost select empty_at
push_cached-lost p n i [] cached packets acc l h g =
    ap (each (push_cached cached) acc) (select-none p n i (λ j a b. ap p (plus j a) ∙ h (j - i)))
    ∙ sym (append-nil acc)
  where
    plus : (j : ℕ) → i ≤ j → j ≡ i + (j - i)
    plus j a = omega arith
push_cached-lost p zero i (chunk ∷ chunks) cached packets acc l h g = absurd (omega arith)
push_cached-lost p (suc n) i (chunk ∷ chunks) cached [] acc l h g =
    let rest =
      push_cached-lost p n (i + 1) chunks cached [] acc (omega arith)
        (λ j. ap p (next i j) ∙ h (suc j)) (λ j. ap (get_elem? cached) (next i j) ∙ g (suc j)) in
    let skipped = push_cached-none cached acc i (ap (get_elem? cached) (here i) ∙ g 0) in
    let done = rest ∙ ap (λ ps. acc ++ ps) (lost-nil chunks) in
    elim (Bool-cases (p i)) [
      | inl t ↦ rw t (ap (λ a. each (push_cached cached) a (select p n (i + 1))) skipped ∙ done)
      | inr t ↦ rw t done
    ]
push_cached-lost p (suc n) i (some c ∷ chunks) cached (q ∷ packets) acc l h g =
    let rest =
      push_cached-lost p n (i + 1) chunks cached packets acc (omega arith)
        (λ j. ap p (next i j) ∙ h (suc j)) (λ j. ap (get_elem? cached) (next i j) ∙ g (suc j)) in
    let passed : p i ≡ false = ap p (here i) ∙ h 0 in rw passed rest
push_cached-lost p (suc n) i (none ∷ chunks) cached (q ∷ packets) acc l h g =
    let rest =
      push_cached-lost p n (i + 1) chunks cached packets (acc ++ (q ∷ [])) (omega arith)
        (λ j. ap p (next i j) ∙ h (suc j)) (λ j. ap (get_elem? cached) (next i j) ∙ g (suc j)) in
    let picked : p i ≡ true = ap p (here i) ∙ h 0 in
    let pushed = push_cached-some cached acc i q (ap (get_elem? cached) (here i) ∙ g 0) in
    rw picked (
      ap (λ a. each (push_cached cached) a (select p n (i + 1))) pushed
      ∙ rest
      ∙ append_assoc acc (q ∷ []) (lost chunks packets))

pub mark_slots-IsSack :
    (i : ℕ) (chunks : List (Option (List ℕ))) (s : SackPayload)
    → IsSack s
    → IsSack (mark_slots i chunks s)
unfolding mark_slots
mark_slots-IsSack i [] s v = v
mark_slots-IsSack i (none ∷ chunks) s v =
    mark_slots-IsSack (i + 1) chunks (mark_missing s i) (mark_missing-IsSack s i v)
mark_slots-IsSack i (some c ∷ chunks) s v = mark_slots-IsSack (i + 1) chunks s v

base_chunk-mark_missing : (s : SackPayload) (i : ℕ) → (mark_missing s i).base_chunk ≡ s.base_chunk
unfolding mark_missing
base_chunk-mark_missing s i = ground arith

pub base_chunk-mark_slots :
    (i : ℕ) (chunks : List (Option (List ℕ))) (s : SackPayload)
    → (mark_slots i chunks s).base_chunk ≡ s.base_chunk
unfolding mark_slots
base_chunk-mark_slots i [] s = refl
base_chunk-mark_slots i (none ∷ chunks) s =
    base_chunk-mark_slots (i + 1) chunks (mark_missing s i) ∙ base_chunk-mark_missing s i
base_chunk-mark_slots i (some c ∷ chunks) s = base_chunk-mark_slots (i + 1) chunks s

in_window-zero :
    (s : SackPayload) (i : ℕ) → s.base_chunk ≡ 0 → i < sack_bitmask_bytes * 8 → in_window s i ≡ true
unfolding in_window
in_window-zero s i b l = ground arith

empty_at-cons :
    (i j : ℕ) (chunk : Option (List ℕ)) (chunks : List (Option (List ℕ)))
    → (leb i j && empty_at (chunk ∷ chunks) (j - i))
      ≡ (((i == j) && is_none chunk) || (leb (i + 1) j && empty_at chunks (j - (i + 1))))
unfolding empty_at
empty_at-cons i j chunk chunks = elim (Bool-cases (leb (i + 1) j)) [
  | inl a ↦
      let lt = leb→le (i + 1) j a in
      let at : j - i ≡ suc (j - (i + 1)) = omega arith in rw at (ground arith)
  | inr a ↦ elim (Bool-cases (i == j)) [
    | inl b ↦ let same = ==→eq i j b in let at : j - i ≡ 0 = omega arith in rw at (ground arith)
    | inr b ↦ ground arith
  ]
]

or_nothing : (x y : Bool) → x ≡ (x || (y && false))
or_nothing true y = refl
or_nothing false true = refl
or_nothing false false = refl

or_swap : (a b c : Bool) → ((a || b) || c) ≡ (b || (a || c))
or_swap true true c = refl
or_swap true false c = refl
or_swap false b c = refl

-- After the loop over the received chunks, exactly the empty places from `i` on are missing.
pub is_missing-mark_slots :
    (i j : ℕ) (chunks : List (Option (List ℕ))) (s : SackPayload)
    → IsSack s
    → s.base_chunk ≡ 0
    → i + length chunks ≤ sack_bitmask_bytes * 8
    → is_missing (mark_slots i chunks s) j
      ≡ (is_missing s j || (leb i j && empty_at chunks (j - i)))
unfolding mark_slots empty_at
is_missing-mark_slots i j [] s v b l = or_nothing (is_missing s j) (leb i j)
is_missing-mark_slots i j (none ∷ chunks) s v b l =
    let inside : in_window s i ≡ true = in_window-zero s i b (omega arith) in
    let marked = is_missing-mark_missing s i j v in
    let rest =
      is_missing-mark_slots (i + 1) j chunks (mark_missing s i) (mark_missing-IsSack s i v)
        (base_chunk-mark_missing s i ∙ b) (omega arith) in
    let step = empty_at-cons i j none chunks in
    ground (
      arith,
      inside,
      marked,
      rest,
      step,
      or_swap (i == j) (is_missing s j) (leb (i + 1) j && empty_at chunks (j - (i + 1))),
    )
is_missing-mark_slots i j (some c ∷ chunks) s v b l =
    let rest = is_missing-mark_slots (i + 1) j chunks s v b (omega arith) in
    let step = empty_at-cons i j (some c) chunks in ground (arith, rest, step)
