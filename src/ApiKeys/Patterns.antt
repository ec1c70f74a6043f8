-- ===== src/ApiKeys/Patterns.antt =====
-- What `_normalize_mailbox_patterns` of app/auth/api_keys.py accepts and returns.
use rapid_inbox.Base.{
  strip_by, subst, Text, ℕ, ◌≤◌, ◌≡◌, refl, ◌⊎◌, inl, inr, Bool, true, false, ◌||◌, List, [], ◌∷◌,
  ◌++◌, arith, length, All, ltb, if◌then◌else◌, Bool-cases,
}
use rapid_inbox.Base.Result.{Result, ok, err, ◌>>◌}
use rapid_inbox.Permissions.Scopes.{has}
use rapid_inbox.Permissions.Validation.{
  IsDistinct, IsDistinct-append, stripped, has-seen, has-added,
}
use rapid_inbox.ApiKeys.Grants.{
  GrantError, too_many, check_pattern, pattern_loop, normalize_mailbox_patterns, IsPattern,
  check_pattern-IsPattern,
}

-- What the loop leaves behind when it has not raised.
record IsCollected (is_space : ℕ → Bool) (normalized values result : List Text) : Type 0 where
  pub distinct : IsDistinct result
  pub patterns : All IsPattern result
  pub complete : (x : Text) → has x result ≡ (has x normalized || has x (stripped is_space values))

checked_round :
    (checked : Result GrantError (Unit {0})) (known : Bool)
    (old new : Result GrantError (List Text)) (result : List Text)
    → (checked >> (if known then old else new)) ≡ ok result
    → (checked ≡ ok tt) × ((known ≡ true) × (old ≡ ok result) ⊎ (known ≡ false) × (new ≡ ok result))
checked_round (ok tt) true old new result h = (refl, inl (refl, h))
checked_round (ok tt) false old new result h = (refl, inr (refl, h))
checked_round (err e) known old new result h = cc

loop_step :
    (is_space : ℕ → Bool) (normalized : List Text) (value : Text) (values result : List Text)
    → pattern_loop is_space normalized (value ∷ values) ≡ ok result
    → (check_pattern (strip_by is_space value) ≡ ok tt)
      × ((has (strip_by is_space value) normalized ≡ true)
            × (pattern_loop is_space normalized values ≡ ok result)
          ⊎ (has (strip_by is_space value) normalized ≡ false)
            × (pattern_loop is_space (normalized ++ strip_by is_space value ∷ []) values
                ≡ ok result))
unfolding pattern_loop
loop_step is_space normalized value values result h =
    checked_round (check_pattern (strip_by is_space value))
      (has (strip_by is_space value) normalized) (pattern_loop is_space normalized values)
      (pattern_loop is_space (normalized ++ strip_by is_space value ∷ []) values) result h

abbrev pattern_result : List Text → Result GrantError (List Text)
pattern_result xs = ok xs

list_eq : (xs ys : List Text) → pattern_result xs ≡ pattern_result ys → xs ≡ ys
list_eq xs ys h = cc

All-append : (P : Text → Type 0) (xs : List Text) (y : Text) → All P xs → P y → All P (xs ++ y ∷ [])
All-append P [] y h p = (p, tt)
All-append P (x ∷ xs) y (q, h) p = (q, All-append P xs y h p)

pattern_loop-IsCollected :
    (is_space : ℕ → Bool) (normalized values result : List Text)
    → IsDistinct normalized
    → All IsPattern normalized
    → pattern_loop is_space normalized values ≡ ok result
    → IsCollected is_space normalized values result
pattern_loop-IsCollected is_space normalized [] result d p h =
    let e : normalized ≡ result = unfold pattern_loop in list_eq normalized result h in
    subst (λ r. IsCollected is_space normalized [] r) e
      (record { distinct = d; patterns = p; complete = λ x. ground arith })
pattern_loop-IsCollected is_space normalized (value ∷ values) result d p h =
    let s = strip_by is_space value in
    let (checked, rounds) = loop_step is_space normalized value values result h in
    elim rounds [
      | inl (known, rest) ↦
          let ih = pattern_loop-IsCollected is_space normalized values result d p rest in
          record {
            distinct = ih.distinct;
            patterns = ih.patterns;
            complete = λ x.
                has-seen x s normalized (stripped is_space values) result known (ih.complete x);
          }
      | inr (new, rest) ↦
          let ih =
            pattern_loop-IsCollected is_space (normalized ++ s ∷ []) values result
              (IsDistinct-append normalized s d new)
              (All-append IsPattern normalized s p (check_pattern-IsPattern s checked)) rest in
          record {
            distinct = ih.distinct;
            patterns = ih.patterns;
            complete =
                λ x. has-added x s normalized (stripped is_space values) result (ih.complete x);
          }
    ]

-- A list of mailbox patterns that passes: at most 100 were given; the result has no duplicate,
-- each of its members is a pattern that a key may carry, and it holds exactly the given ones
-- without their outer spaces.
pub normalize_mailbox_patterns_sound :
    (is_space : ℕ → Bool) (values result : List Text) (x : Text)
    → normalize_mailbox_patterns is_space values ≡ ok result
    → (length values ≤ 100)
      × IsDistinct result
      × All IsPattern result
      × (has x result ≡ has x (stripped is_space values))
unfolding normalize_mailbox_patterns
normalize_mailbox_patterns_sound is_space values result x h =
    elim (Bool-cases (ltb 100 (length values))) [
      | inl many ↦ (let h' : err too_many ≡ (ok result) = rw many at h in cc)
      | inr few ↦
          let h' : pattern_loop is_space [] values ≡ ok result = rw few at h in
          let c = pattern_loop-IsCollected is_space [] values result tt tt h' in
          (ground arith, c.distinct, c.patterns, c.complete x)
    ]
