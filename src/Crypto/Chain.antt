-- ===== src/Crypto/Chain.antt =====
-- The sender-key chain over many steps.
use gibberish.Prelude.{ℕ, zero, suc, ◌+◌, ◌^◌, ◌<◌, ◌≡◌, refl, List, [], ◌∷◌, ◌++◌, arith}
use gibberish.Prelude.Bytes.{to_be_bytes}
use gibberish.Crypto.{Primitives, SenderKeyChain, new_chain, step, msg_label, next_label}

module _ (c : Primitives) where
  -- The message keys and counters of the next `n` steps.
  unfoldable pub message_keys : ℕ → SenderKeyChain → List (List ℕ × ℕ)
  message_keys zero chain = []
  message_keys (suc n) chain = let s = step c chain in s.1 ∷ message_keys n s.0

  -- The seed, ratcheted `n` times.
  unfoldable pub ratcheted : ℕ → List ℕ → List ℕ
  ratcheted zero seed = seed
  ratcheted (suc n) seed = c.keyed_hash (ratcheted n seed) next_label

  -- The key of the message `i` of a seed.
  unfoldable pub message_key : List ℕ → ℕ → List ℕ × ℕ
  message_key seed i = (c.keyed_hash (ratcheted i seed) (msg_label ++ to_be_bytes 8 i), i)

  unfoldable pub keys_from : List ℕ → ℕ → ℕ → List (List ℕ × ℕ)
  keys_from seed i zero = []
  keys_from seed i (suc n) = message_key seed i ∷ keys_from seed (suc i) n

  message_keys_at :
      (n i : ℕ) (seed : List ℕ)
      → i + n < 2 ^ 64
      → message_keys n (record { chain_key = ratcheted i seed; counter = i }) ≡ keys_from seed i n
  unfolding message_keys keys_from message_key step ratcheted
  message_keys_at zero i seed h = refl
  message_keys_at (suc n) i seed h =
      let rest = message_keys_at n (suc i) seed (omega arith) in ground (arith, rest)

  -- The steps of a new chain give the keys of the messages 0, 1, 2, ... in order: each from the seed
  -- ratcheted as often as its number says, so that the counters are distinct and an earlier chain key
  -- is not needed for a later message. Before the counter reaches its 64-bit end.
  pub message_keys-new_chain :
      (n : ℕ) (seed : List ℕ) → n < 2 ^ 64 → message_keys n (new_chain seed) ≡ keys_from seed 0 n
  unfolding new_chain ratcheted
  message_keys-new_chain n seed h = message_keys_at n 0 seed (omega arith)
