-- ===== src/Prelude/HashMap.antt =====
-- `HashMap`, as a list of its entries; `same` compares keys. The order in which a `HashMap` is iterated
-- is not specified: here it is the order of insertion, and a new value stays in its key's place.
use gibberish.Prelude.{
  suc, ◌≤◌, ◌<◌, ◌≡◌, refl, ap, Bool, true, not, Option, none, some, List, [], ◌∷◌, length,
  if◌then◌else◌, is_some, arith, Bool-cases, inl, inr,
}

abbrev pub HashMap {ℓ κ} : Type ℓ → Type κ → Type (ℓ ⊔ κ)
HashMap K V = List (K × V)

module _ {ℓ κ} {K : Type ℓ} {V : Type κ} where
  -- `retain`, with the test on the whole entry
  unfoldable pub retain : (K × V → Bool) → HashMap K V → HashMap K V
  retain keep [] = []
  retain keep (e ∷ m) = let kept = retain keep m in if keep e then e ∷ kept else kept

module _ {ℓ κ} {K : Type ℓ} {V : Type κ} (same : K → K → Bool) where
  unfoldable pub get : K → HashMap K V → Option V
  get k [] = none
  get k (e ∷ m) = let later = get k m in if same k e.0 then some e.1 else later

  unfoldable pub contains_key : K → HashMap K V → Bool
  contains_key k m = is_some (get k m)

  unfoldable pub put : K → V → HashMap K V → HashMap K V
  put k v [] = (k, v) ∷ []
  put k v (e ∷ m) = let later = put k v m in if same k e.0 then (k, v) ∷ m else e ∷ later

  unfoldable pub remove : K → HashMap K V → HashMap K V
  remove k m = retain (λ e. not (same k e.0)) m

module _ {ℓ κ} {K : Type ℓ} {V : Type κ} where
  pub length-retain : (keep : K × V → Bool) (m : HashMap K V) → length (retain keep m) ≤ length m
  unfolding retain
  length-retain keep [] = omega arith
  length-retain keep (e ∷ m) = ground (arith, length-retain keep m)

  -- Two filters can be applied in either order.
  pub retain-retain :
      (p q : K × V → Bool) (m : HashMap K V) → retain p (retain q m) ≡ retain q (retain p m)
  unfolding retain
  retain-retain p q [] = refl
  retain-retain p q (e ∷ m) =
      let ih = retain-retain p q m in
      elim (Bool-cases (p e)) [
        | inl a ↦ ground (arith, ih, ap (λ r. e ∷ r) ih)
        | inr a ↦ ground (arith, ih)
      ]

module _ {ℓ κ} {K : Type ℓ} {V : Type κ} (same : K → K → Bool)
    (same_refl : (k : K) → same k k ≡ true) where
  pub get-put_self : (k : K) (v : V) (m : HashMap K V) → get same k (put same k v m) ≡ some v
  unfolding get put
  get-put_self k v [] = ground (arith, same_refl k)
  get-put_self k v (e ∷ m) = ground (arith, same_refl k, get-put_self k v m)

  -- An entry that passes the test is found after the others are dropped.
  pub get-retain-some :
      (keep : K × V → Bool) (k : K) (v : V) (m : HashMap K V)
      → ((j : K) → same k j ≡ true → keep (j, v) ≡ true)
      → get same k m ≡ some v
      → get same k (retain keep m) ≡ some v
  unfolding get retain
  get-retain-some keep k v [] h g = g
  get-retain-some keep k v (e ∷ m) h g =
      let ih = get-retain-some keep k v m h in
      elim (Bool-cases (same k e.0)) [
        | inl a ↦ ground (arith, h e.0 a)
        | inr a ↦ ground (arith, ih)
      ]

  pub get-retain-none :
      (keep : K × V → Bool) (k : K) (m : HashMap K V)
      → get same k m ≡ none
      → get same k (retain keep m) ≡ none
  unfolding get retain
  get-retain-none keep k [] g = refl
  get-retain-none keep k (e ∷ m) g =
      let ih = get-retain-none keep k m in
      elim (Bool-cases (same k e.0)) [ inl a ↦ ground arith | inr a ↦ ground (arith, ih) ]

  pub get-remove_self : (k : K) (m : HashMap K V) → get same k (remove same k m) ≡ none
  unfolding get remove retain
  get-remove_self k [] = refl
  get-remove_self k (e ∷ m) = ground (arith, get-remove_self k m)

  pub length-remove :
      (k : K) (m : HashMap K V) → contains_key same k m ≡ true → length (remove same k m) < length m
  unfolding get contains_key remove retain
  length-remove k [] h = absurd (ground arith)
  length-remove k (e ∷ m) h =
      ground (arith, length-remove k m, length-retain (λ x. not (same k x.0)) m)

  pub length-put : (k : K) (v : V) (m : HashMap K V) → length (put same k v m) ≤ suc (length m)
  unfolding put
  length-put k v [] = omega arith
  length-put k v (e ∷ m) = ground (arith, length-put k v m)
