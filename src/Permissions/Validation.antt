-- ===== src/Permissions/Validation.antt =====
-- What `validate_scopes_for_kind` of app/auth/permissions.py accepts.
use rapid_inbox.Base.{
  subst, ℕ, ◌≡◌, refl, sym, ap, ◌∙◌, ◌≢◌, ◌⊎◌, inl, inr, Bool, true, false, not, ◌||◌, some, List,
  [], ◌∷◌, ◌++◌, arith, length, ltb, eqb, if◌then◌else◌, Bool-cases, Text, text_eq, text_eq_iff,
  strip_by,
}
use rapid_inbox.Base.Result.{Result, ok, err, ◌>>=◌}
use rapid_inbox.Permissions.Scopes.{
  has, valid_api_key_scopes, kind_scopes, ScopeError, too_many, empty_scope, unknown_scope,
  forbidden_scope, normalize_scopes, some_scopes, validate_allowed, validate_scopes_for_kind,
}

abbrev pub IsDistinct : List Text → Type 0
IsDistinct [] = Unit
IsDistinct (s ∷ scopes) = (has s scopes ≡ false) × IsDistinct scopes

pub has-append : (x : Text) (xs ys : List Text) → has x (xs ++ ys) ≡ (has x xs || has x ys)
has-append x [] ys = refl
has-append x (y ∷ xs) ys = ground (arith, has-append x xs ys)

pub IsDistinct-append :
    (xs : List Text) (y : Text) → IsDistinct xs → has y xs ≡ false → IsDistinct (xs ++ y ∷ [])
IsDistinct-append [] y d h = (refl, tt)
IsDistinct-append (x ∷ xs) y (new, d) h = (
  ground (arith, has-append x xs (y ∷ []), text_eq_iff x y, text_eq_iff y x),
  IsDistinct-append xs y d (ground arith),
)

abbrev pub stripped : (ℕ → Bool) → List Text → List Text
stripped is_space [] = []
stripped is_space (s ∷ scopes) = strip_by is_space s ∷ stripped is_space scopes

-- What the loop leaves behind when it has not raised.
pub record IsNormalized (is_space : ℕ → Bool) (allowed normalized scopes result : List Text)
    : Type 0 where
  pub distinct : IsDistinct result
  pub permitted : (x : Text) → has x result ≡ true → has x normalized ≡ false → has x allowed ≡ true
  pub complete : (x : Text) → has x result ≡ (has x normalized || has x (stripped is_space scopes))

-- the tests of a round, whatever they stand for
round :
    (blank known permitted old : Bool) (seen added : Result ScopeError (List Text))
    (result : List Text)
    → (if blank
        then err empty_scope
        else if not known
        then err unknown_scope
        else if not permitted
        then err forbidden_scope
        else if old
        then seen
        else added)
      ≡ ok result
    → (permitted ≡ true)
      × (((old ≡ true) × (seen ≡ ok result)) ⊎ ((old ≡ false) × (added ≡ ok result)))
round true known permitted old seen added result h = cc
round false false permitted old seen added result h = cc
round false true false old seen added result h = cc
round false true true true seen added result h = (refl, inl (refl, h))
round false true true false seen added result h = (refl, inr (refl, h))

-- One round: the scope is allowed, and the loop goes on with it at the end if it is new.
normalize_step :
    (is_space : ℕ → Bool) (valid allowed normalized : List Text) (raw : Text)
    (scopes result : List Text)
    → normalize_scopes is_space valid allowed normalized (raw ∷ scopes) ≡ ok result
    → (has (strip_by is_space raw) allowed ≡ true)
      × (((has (strip_by is_space raw) normalized ≡ true)
            × (normalize_scopes is_space valid allowed normalized scopes ≡ ok result))
          ⊎ ((has (strip_by is_space raw) normalized ≡ false)
              × (normalize_scopes is_space valid allowed
                    (normalized ++ strip_by is_space raw ∷ [])
                    scopes
                  ≡ ok result)))
unfolding normalize_scopes
normalize_step is_space valid allowed normalized raw scopes result h =
    round (eqb (length (strip_by is_space raw)) 0) (has (strip_by is_space raw) valid)
      (has (strip_by is_space raw) allowed) (has (strip_by is_space raw) normalized) _ _ result h

pub has-seen :
    (x s : Text) (normalized rest result : List Text)
    → has s normalized ≡ true
    → has x result ≡ (has x normalized || has x rest)
    → has x result ≡ (has x normalized || has x (s ∷ rest))
has-seen x s normalized rest result seen ih = elim (Bool-cases (text_eq x s)) [
  | inl same ↦
      let e : x ≡ s = (text_eq_iff x s).0 same in
      let known : has x normalized ≡ true = rw e seen in ground arith
  | inr other ↦ ground arith
]

pub has-added :
    (x s : Text) (normalized rest result : List Text)
    → has x result ≡ (has x (normalized ++ s ∷ []) || has x rest)
    → has x result ≡ (has x normalized || has x (s ∷ rest))
has-added x s normalized rest result ih = ground (arith, has-append x normalized (s ∷ []))

permitted_added :
    (x s : Text) (allowed normalized result : List Text)
    → has s allowed ≡ true
    → (has x result ≡ true → has x (normalized ++ s ∷ []) ≡ false → has x allowed ≡ true)
    → has x result ≡ true
    → has x normalized ≡ false
    → has x allowed ≡ true
permitted_added x s allowed normalized result here ih p q = elim (Bool-cases (text_eq x s)) [
  | inl same ↦ (let e : x ≡ s = (text_eq_iff x s).0 same in rw e here)
  | inr other ↦ ih p (has-append x normalized (s ∷ []) ∙ ground arith)
]

abbrev the_ok : List Text → Result ScopeError (List Text)
the_ok xs = ok xs

ok_eq : {xs ys : List Text} → the_ok xs ≡ the_ok ys → xs ≡ ys
ok_eq h = cc

permitted_or :
    (allowed result : List Text) (x : Text)
    → ((y : Text) → has y result ≡ true → has y [] ≡ false → has y allowed ≡ true)
    → (has x result ≡ false) ⊎ (has x allowed ≡ true)
permitted_or allowed result x f = elim (Bool-cases (has x result)) [
  | inl held ↦ inr (f x held refl)
  | inr missing ↦ inl missing
]

IsNormalized-refl :
    (is_space : ℕ → Bool) (allowed normalized : List Text)
    → IsDistinct normalized
    → IsNormalized is_space allowed normalized [] normalized
IsNormalized-refl is_space allowed normalized d = record {
  distinct = d;
  permitted = λ x p q. cc;
  complete = λ x. ground arith;
}

IsNormalized-seen :
    (is_space : ℕ → Bool) (allowed normalized : List Text) (raw : Text) (scopes result : List Text)
    → has (strip_by is_space raw) normalized ≡ true
    → IsNormalized is_space allowed normalized scopes result
    → IsNormalized is_space allowed normalized (raw ∷ scopes) result
IsNormalized-seen is_space allowed normalized raw scopes result seen ih = record {
  distinct = ih.distinct;
  permitted = ih.permitted;
  complete = λ x.
      has-seen x (strip_by is_space raw) normalized (stripped is_space scopes) result seen
        (ih.complete x);
}

IsNormalized-added :
    (is_space : ℕ → Bool) (allowed normalized : List Text) (raw : Text) (scopes result : List Text)
    → has (strip_by is_space raw) allowed ≡ true
    → IsNormalized is_space allowed (normalized ++ strip_by is_space raw ∷ []) scopes result
    → IsNormalized is_space allowed normalized (raw ∷ scopes) result
IsNormalized-added is_space allowed normalized raw scopes result here ih = record {
  distinct = ih.distinct;
  permitted = λ x p q.
      permitted_added x (strip_by is_space raw) allowed normalized result here (ih.permitted x) p q;
  complete = λ x.
      has-added x (strip_by is_space raw) normalized (stripped is_space scopes) result
        (ih.complete x);
}

normalize_scopes-IsNormalized :
    (is_space : ℕ → Bool) (valid allowed normalized scopes result : List Text)
    → IsDistinct normalized
    → normalize_scopes is_space valid allowed normalized scopes ≡ ok result
    → IsNormalized is_space allowed normalized scopes result
normalize_scopes-IsNormalized is_space valid allowed normalized [] result d h =
    let e : normalized ≡ result = unfold normalize_scopes in ok_eq h in
    subst (λ r. IsNormalized is_space allowed normalized [] r) e
      (IsNormalized-refl is_space allowed normalized d)
normalize_scopes-IsNormalized is_space valid allowed normalized (raw ∷ scopes) result d h =
    let s = strip_by is_space raw in
    let (permitted, rounds) =
      normalize_step is_space valid allowed normalized raw scopes result h in
    elim rounds [
      | inl (seen, rest) ↦
          IsNormalized-seen is_space allowed normalized raw scopes result seen
            (normalize_scopes-IsNormalized is_space valid allowed normalized scopes result d rest)
      | inr (new, rest) ↦
          IsNormalized-added is_space allowed normalized raw scopes result permitted (
            normalize_scopes-IsNormalized is_space valid allowed (normalized ++ s ∷ []) scopes
              result (IsDistinct-append normalized s d new) rest)
    ]

some_scopes-ok :
    (xs result : List Text) → some_scopes xs ≡ ok result → (xs ≡ result) × (result ≢ [])
some_scopes-ok [] result h = cc
some_scopes-ok (x ∷ xs) result h = let e : x ∷ xs ≡ result = ok_eq h in (e, λ n. cc)

validate_ok :
    (many : Bool) (loop : Result ScopeError (List Text)) (result : List Text)
    → (if many then err too_many else (loop >>= some_scopes)) ≡ ok result
    → (loop ≡ ok result) × (result ≢ [])
validate_ok true loop result h = cc
validate_ok false (err e) result h = cc
validate_ok false (ok xs) result h = let (e, n) = some_scopes-ok xs result h in (ap ok e, n)

-- A list of scopes that passes for a kind of key: it is not empty, has no duplicate, holds only
-- what the kind allows, and holds exactly the given scopes without their outer spaces.
pub validate_scopes_sound :
    (is_space : ℕ → Bool) (kind : Text) (scopes allowed result : List Text) (x : Text)
    → kind_scopes kind ≡ some allowed
    → validate_scopes_for_kind is_space kind scopes ≡ ok result
    → (result ≢ [])
      × IsDistinct result
      × (has x result ≡ has x (stripped is_space scopes))
      × ((has x result ≡ false) ⊎ (has x allowed ≡ true))
unfolding validate_scopes_for_kind
validate_scopes_sound is_space kind scopes allowed result x k h =
    let h' : validate_allowed is_space scopes (some allowed) ≡ ok result =
      sym (ap (validate_allowed is_space scopes) k) ∙ h in
    let (loop, nonempty) =
      validate_ok (ltb 100 (length scopes))
        (normalize_scopes is_space valid_api_key_scopes allowed [] scopes) result h' in
    let n =
      normalize_scopes-IsNormalized is_space valid_api_key_scopes allowed [] scopes result tt
        loop in
    (nonempty, n.distinct, n.complete x, permitted_or allowed result x n.permitted)
