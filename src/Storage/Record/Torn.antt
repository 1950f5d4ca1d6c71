-- ===== src/Storage/Record/Torn.antt =====
-- Power loss in the middle of a write: only the first bytes of the new record reached the card.
use gibberish.Prelude.{
  ℕ, zero, suc, ◌+◌, ◌*◌, ◌<◌, ◌≤◌, ◌≡◌, ◌≢◌, refl, ap, ◌∙◌, sym, List, [], ◌∷◌, ◌++◌, length, take,
  drop, get_or, All, arith, ◌==◌, ==→eq, Bool-cases, inl, inr, length-append, length-take,
  length-drop,
}
use gibberish.Prelude.Bytes.{bytes_eq, slice, byte_at, from_be_bytes, IsByte}
use gibberish.Protocol.Consts.{record_magic, record_commit_marker}
use gibberish.Storage.Error.{ok}
use gibberish.Storage.Record.{ChunkRecord, record_size, deserialize_record}

-- The record's place on the card when the power failed after `k` bytes.
unfoldable pub torn : ℕ → List ℕ → List ℕ → List ℕ
torn k new old = take k new ++ drop k old

byte_at-torn :
    (k i : ℕ) (new old : List ℕ)
    → k ≤ i
    → k ≤ length new
    → k ≤ length old
    → byte_at i (torn k new old) ≡ byte_at i old
unfolding torn byte_at
byte_at-torn zero i new old h a b = refl
byte_at-torn (suc k) zero new old h a b = absurd (omega arith)
byte_at-torn (suc k) (suc i) [] old h a b = absurd (omega arith)
byte_at-torn (suc k) (suc i) (x ∷ new) [] h a b = absurd (omega arith)
byte_at-torn (suc k) (suc i) (x ∷ new) (y ∷ old) h a b =
    byte_at-torn k i new old (omega arith) (omega arith) (omega arith)

take-IsByte : (k : ℕ) (l : List ℕ) → All IsByte l → All IsByte (take k l)
take-IsByte zero l h = tt
take-IsByte (suc k) [] h = tt
take-IsByte (suc k) (x ∷ l) h = (h.0, take-IsByte k l h.1)

drop-IsByte : (k : ℕ) (l : List ℕ) → All IsByte l → All IsByte (drop k l)
drop-IsByte zero l h = h
drop-IsByte (suc k) [] h = tt
drop-IsByte (suc k) (x ∷ l) h = drop-IsByte k l h.1

append-IsByte : (l m : List ℕ) → All IsByte l → All IsByte m → All IsByte (l ++ m)
append-IsByte [] m p q = q
append-IsByte (x ∷ l) m p q = (p.0, append-IsByte l m p.1 q)

get_or-IsByte : (i : ℕ) (l : List ℕ) → All IsByte l → get_or l i 0 < 256
get_or-IsByte i [] h = omega arith
get_or-IsByte zero (x ∷ l) h = h.0
get_or-IsByte (suc i) (x ∷ l) h = get_or-IsByte i l h.1

-- The big-endian `u16` at an offset ends in the byte behind it.
slice_pair :
    (i : ℕ) (buf : List ℕ)
    → i + 2 ≤ length buf
    → slice i 2 buf ≡ byte_at i buf ∷ byte_at (i + 1) buf ∷ []
unfolding slice byte_at
slice_pair zero [] h = absurd (omega arith)
slice_pair zero (x ∷ []) h = absurd (omega arith)
slice_pair zero (x ∷ y ∷ buf) h = refl
slice_pair (suc i) [] h = absurd (omega arith)
slice_pair (suc i) (x ∷ buf) h =
    let e : suc i + 1 ≡ suc (i + 1) = omega arith in
    slice_pair i buf (omega arith) ∙ ap (λ k. get_or buf i 0 ∷ get_or (x ∷ buf) k 0 ∷ []) (sym e)

from_be_bytes-pair : (a b : ℕ) → from_be_bytes (a ∷ b ∷ []) ≡ a * 256 + b
unfolding from_be_bytes
from_be_bytes-pair a b = omega arith

-- What is accepted carries the commit word in its last two bytes.
accepted_commit :
    (crc32 : List ℕ → ℕ) (buf : List ℕ) (r : ChunkRecord)
    → deserialize_record crc32 buf ≡ ok r
    → from_be_bytes (slice 114 2 buf) ≡ record_commit_marker
unfolding deserialize_record
accepted_commit crc32 buf r h = elim (Bool-cases (bytes_eq (slice 0 4 buf) record_magic)) [
  | inr e ↦ cc (rw e at h)
  | inl e ↦ elim (Bool-cases (from_be_bytes (slice 114 2 buf) == record_commit_marker)) [
    | inl c ↦ ==→eq _ _ c
    | inr c ↦ cc (rw (e, c) at h)
  ]
]

commit_byte :
    (buf : List ℕ)
    → All IsByte buf
    → length buf ≡ record_size
    → from_be_bytes (slice 114 2 buf) ≡ record_commit_marker
    → byte_at 115 buf ≡ 0x55
unfolding byte_at
commit_byte buf bytes n h = omega (
  arith,
  ap from_be_bytes (slice_pair 114 buf (omega arith)),
  from_be_bytes-pair (byte_at 114 buf) (byte_at 115 buf),
  get_or-IsByte 115 buf bytes,
  get_or-IsByte 114 buf bytes,
)

-- Whatever record was being written, a write that stopped before its last byte is never read as a
-- record, on a place whose last byte was not 0x55 before: the commit word is completed last.
pub torn_write_rejected :
    (crc32 : List ℕ → ℕ) (k : ℕ) (new old : List ℕ) (r : ChunkRecord)
    → k < record_size
    → length new ≡ record_size
    → length old ≡ record_size
    → All IsByte new
    → All IsByte old
    → byte_at 115 old ≢ 0x55
    → deserialize_record crc32 (torn k new old) ≢ ok r
unfolding torn
torn_write_rejected crc32 k new old r hk hn ho bn bo ne h =
    let buf = torn k new old in
    let bytes =
      append-IsByte (take k new) (drop k old) (take-IsByte k new bn) (drop-IsByte k old bo) in
    let n : length buf ≡ record_size =
      omega (
        arith,
        length-append {0} (take k new) (drop k old),
        length-take k new,
        length-drop k old,
      ) in
    ne (
      sym (byte_at-torn k 115 new old (omega arith) (omega arith) (omega arith))
      ∙ commit_byte buf bytes n (accepted_commit crc32 buf r h))
