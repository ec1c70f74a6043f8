-- ===== src/Live/Numbering.antt =====
-- Numbered histories, and what dropping and filtering leave of them.
use rapid_inbox.Base.{
  ℕ, zero, suc, ◌+◌, ◌-◌, ◌≤◌, ◌<◌, ◌≡◌, refl, ap, ◌∙◌, inl, inr, true, List, [], ◌∷◌, ◌++◌, arith,
  length, drop, drop-nil, ltb, Bool-cases,
}
use rapid_inbox.Live.Ring.{Event, snapshot_since}

module _ {ℓ} {E : Type ℓ} where
  -- The events of a history, numbered upwards from `k`.
  unfoldable pub numbered : ℕ → List E → List (Event E)
  numbered k [] = []
  numbered k (e ∷ es) = record { seq = k; payload = e } ∷ numbered (suc k) es

  pub length-numbered : (k : ℕ) (es : List E) → length (numbered k es) ≡ length es
  unfolding numbered
  length-numbered k [] = refl
  length-numbered k (e ∷ es) = ap suc (length-numbered (suc k) es)

  pub numbered-append :
      (k : ℕ) (es : List E) (e : E)
      → numbered k (es ++ e ∷ [])
        ≡ numbered k es ++ record { seq = k + length es; payload = e } ∷ []
  unfolding numbered
  numbered-append k [] e = ap (λ n. record { seq = n; payload = e } ∷ []) (omega arith)
  numbered-append k (x ∷ es) e =
      ap (λ r. record { seq = k; payload = x } ∷ r)
        (numbered-append (suc k) es e
          ∙ ap (λ n. numbered (suc k) es ++ record { seq = n; payload = e } ∷ []) (omega arith))

  pub drop-numbered :
      (n k : ℕ) (es : List E) → drop n (numbered k es) ≡ numbered (k + n) (drop n es)
  unfolding numbered
  drop-numbered zero k es = ap (λ m. numbered m es) (omega arith)
  drop-numbered (suc n) k [] = refl
  drop-numbered (suc n) k (e ∷ es) =
      drop-numbered n (suc k) es ∙ ap (λ m. numbered m (drop n es)) (omega arith)

  pub snapshot_since-all :
      (s k : ℕ) (es : List E) → s < k → snapshot_since s (numbered k es) ≡ numbered k es
  unfolding snapshot_since numbered
  snapshot_since-all s k [] h = refl
  snapshot_since-all s k (e ∷ es) h =
      let newer : ltb s k ≡ true = ground arith in
      rw newer (rw (snapshot_since-all s (suc k) es (omega arith)))

  -- Of events numbered from `k`, those after `s` are those that are left when the first ones go.
  pub snapshot_since-numbered :
      (s k : ℕ) (es : List E)
      → k ≤ suc s
      → snapshot_since s (numbered k es) ≡ numbered (suc s) (drop (suc s - k) es)
  unfolding snapshot_since numbered
  snapshot_since-numbered s k [] h = rw drop-nil
  snapshot_since-numbered s k (e ∷ es) h = elim (Bool-cases (ltb s k)) [
    | inl newer ↦
        let last : suc s ≡ k = ground arith in
        let none_gone : suc s - k ≡ 0 = omega arith in
        rw (newer, none_gone, last) (rw (snapshot_since-all s (suc k) es (omega arith)))
    | inr older ↦
        let one_gone : suc s - k ≡ suc (suc s - suc k) = ground arith in
        rw (older, one_gone) (snapshot_since-numbered s (suc k) es (ground arith))
  ]
