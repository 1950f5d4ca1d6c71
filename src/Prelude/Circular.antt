-- ===== src/Prelude/Circular.antt =====
-- A circular array of slots: the slots from an index on, going round at the end.
use gibberish.Prelude.{
  ℕ, zero, suc, ◌+◌, ◌-◌, ◌%◌, ◌≤◌, ◌<◌, ◌≡◌, ◌≢◌, refl, ap, ap₂, ◌∙◌, sym, Option, none, List, [],
  ◌∷◌, ◌++◌, length, get_or, set, get_or-set_self, get_or-set_ne, arith, inl, inr, ◌⊎◌,
}
use native.Mathlib.Nat.{mod-add-mod, mod-eq_of_lt, mod-eq-sub-mod}
use native.Mathlib.Decide.{dec_lt}

-- Going on by less than the capacity comes round once at most.
round_cases :
    (cap t k : ℕ)
    → t < cap
    → k ≤ cap
    → ((t + k < cap) × ((t + k) % cap ≡ t + k)) ⊎ ((cap ≤ t + k) × ((t + k) % cap ≡ t + k - cap))
round_cases cap t k ht hk = elim (dec_lt (t + k) cap) [
  | yes p ↦ inl (p, mod-eq_of_lt p)
  | no p ↦ inr (
    omega arith,
    mod-eq-sub-mod {n = t + k} {m = cap} (omega arith)
        ∙ mod-eq_of_lt {n = t + k - cap} {m = cap} (omega arith),
  )
]

round_ne : (cap t k n : ℕ) → t < cap → k < n → n < cap → (t + k) % cap ≢ (t + n) % cap
round_ne cap t k n ht hk hn e =
    omega (arith, round_cases cap t k ht (omega arith), round_cases cap t n ht (omega arith))

pub round_lt : (cap t : ℕ) → t < cap → (t + 1) % cap < cap
round_lt cap t h = omega (arith, round_cases cap t 1 h (omega arith))

round_step : (cap t n : ℕ) → ((t + 1) % cap + n) % cap ≡ (t + suc n) % cap
round_step cap t n = mod-add-mod (t + 1) cap n ∙ ap (λ k. k % cap) (omega arith)

round_zero : (cap t : ℕ) → t < cap → (t + 0) % cap ≡ t
round_zero cap t h = omega (arith, round_cases cap t 0 h (omega arith))

module _ {A : Type 0} (cap : ℕ) where
  -- The `n` slots of an array from index `t` on.
  abbrev pub window : List (Option A) → ℕ → ℕ → List (Option A)
  window buf t zero = []
  window buf t (suc n) = get_or buf t none ∷ window buf ((t + 1) % cap) n

  -- Writing outside a window does not change it.
  window-set_ne :
      (buf : List (Option A)) (t n i : ℕ) (x : Option A)
      → t < cap
      → ((k : ℕ) → k < n → (t + k) % cap ≢ i)
      → window (set buf i x) t n ≡ window buf t n
  window-set_ne buf t zero i x ht apart = refl
  window-set_ne buf t (suc n) i x ht apart =
      ap₂ ◌∷◌
        (get_or-set_ne buf i t x none (λ e. apart 0 (omega arith) (round_zero cap t ht ∙ sym e)))
        (window-set_ne buf ((t + 1) % cap) n i x (round_lt cap t ht)
          (λ k hk e. apart (suc k) (omega arith) (sym (round_step cap t k) ∙ e)))

  window-snoc :
      (buf : List (Option A)) (t n : ℕ)
      → t < cap
      → window buf t (suc n) ≡ window buf t n ++ (get_or buf ((t + n) % cap) none ∷ [])
  window-snoc buf t zero ht = ap (λ k. get_or buf k none ∷ []) (sym (round_zero cap t ht))
  window-snoc buf t (suc n) ht =
      ap (λ r. get_or buf t none ∷ r)
        (window-snoc buf ((t + 1) % cap) n (round_lt cap t ht)
          ∙ ap (λ k. window buf ((t + 1) % cap) n ++ (get_or buf k none ∷ [])) (round_step cap t n))

  -- Filling the slot behind a window extends it at the end.
  pub window-set_end :
      (buf : List (Option A)) (t n : ℕ) (x : Option A)
      → length buf ≡ cap
      → t < cap
      → n < cap
      → window (set buf ((t + n) % cap) x) t (suc n) ≡ window buf t n ++ (x ∷ [])
  window-set_end buf t n x hb ht hn =
      let i = (t + n) % cap in
      window-snoc (set buf i x) t n ht
      ∙ ap₂ (λ w y. w ++ (y ∷ []))
          (window-set_ne buf t n i x ht (λ k hk. round_ne cap t k n ht hk hn))
          (get_or-set_self buf i x none (omega (arith, round_cases cap t n ht (omega arith))))

  -- Emptying the slot before a window does not change it.
  pub window-clear_front :
      (buf : List (Option A)) (t n : ℕ) (x : Option A)
      → t < cap
      → n < cap
      → window (set buf t x) ((t + 1) % cap) n ≡ window buf ((t + 1) % cap) n
  window-clear_front buf t n x ht hn =
      window-set_ne buf ((t + 1) % cap) n t x (round_lt cap t ht) (λ k hk e.
        round_ne cap t 0 (suc k) ht (omega arith) (omega arith)
          (round_zero cap t ht ∙ sym e ∙ round_step cap t k))

  -- A slot of the window, by its place in the window.
  pub get_or-window :
      (buf : List (Option A)) (t n k : ℕ)
      → t < cap
      → k < n
      → get_or (window buf t n) k none ≡ get_or buf ((t + k) % cap) none
  get_or-window buf t zero k ht hk = absurd (omega arith)
  get_or-window buf t (suc n) zero ht hk = ap (λ i. get_or buf i none) (sym (round_zero cap t ht))
  get_or-window buf t (suc n) (suc k) ht hk =
      get_or-window buf ((t + 1) % cap) n k (round_lt cap t ht) (omega arith)
      ∙ ap (λ i. get_or buf i none) (round_step cap t k)

  -- Writing one slot of the window.
  pub window-set :
      (buf : List (Option A)) (t n k : ℕ) (x : Option A)
      → length buf ≡ cap
      → t < cap
      → k < n
      → n ≤ cap
      → window (set buf ((t + k) % cap) x) t n ≡ set (window buf t n) k x
  window-set buf t zero k x hb ht hk hn = absurd (omega arith)
  window-set buf t (suc n) zero x hb ht hk hn =
      ap (λ i. window (set buf i x) t (suc n)) (round_zero cap t ht)
      ∙ ap₂ ◌∷◌ (get_or-set_self buf t x none (omega arith))
          (window-clear_front buf t n x ht (omega arith))
  window-set buf t (suc n) (suc k) x hb ht hk hn =
      ap₂ ◌∷◌
        (get_or-set_ne buf ((t + suc k) % cap) t x none (λ e.
          round_ne cap t 0 (suc k) ht (omega arith) (omega arith) (round_zero cap t ht ∙ sym e)))
        (ap (λ i. window (set buf i x) ((t + 1) % cap) n) (sym (round_step cap t k))
          ∙ window-set buf ((t + 1) % cap) n k x hb (round_lt cap t ht) (omega arith) (omega arith))

  pub length-window : (buf : List (Option A)) (t n : ℕ) → length (window buf t n) ≡ n
  length-window buf t zero = refl
  length-window buf t (suc n) = ap suc (length-window buf ((t + 1) % cap) n)
