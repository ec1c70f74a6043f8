-- ===== src/ApiKeys/Plain.antt =====
-- `_parse_plain_text` of app/auth/api_keys.py: the parts of "ri_<kind>_<prefix>_<secret>".
use rapid_inbox.Base.{
  has_char, codes, text_eq, onto_first, Text, ℕ, zero, suc, ◌≡◌, refl, ap, ◌⊎◌, inl, inr, false,
  not, ◌||◌, List, [], ◌∷◌, ◌++◌, arith, length, ltb, eqb, if◌then◌else◌, Bool-cases,
}
use rapid_inbox.Base.Result.{Result, ok, err}
use rapid_inbox.Permissions.Scopes.{has}

abbrev pub valid_api_key_kinds : List Text
valid_api_key_kinds = codes "admin" ∷ codes "public" ∷ codes "service" ∷ []

-- LookupError and ValueError
pub data KeyError : Type 0 where
  invalid_key inactive_key header_disabled query_disabled expired_key ip_denied invalid_transport :
      KeyError

-- `s.split("_", n)`
unfoldable pub split_max : ℕ → Text → List Text
split_max zero s = s ∷ []
split_max (suc n) [] = [] ∷ []
split_max (suc n) (c ∷ s) =
    let word = onto_first c (split_max (suc n) s) in
    let parted = split_max n s in if eqb c 95 then [] ∷ parted else word

abbrev pub check_parts : List Text → Result KeyError (Text × Text × Text)
check_parts (tag ∷ kind ∷ key_prefix ∷ secret ∷ []) =
    if not (text_eq tag (codes "ri"))
    then err invalid_key
    else if not (has kind valid_api_key_kinds) || eqb (length key_prefix) 0 || eqb (length secret) 0
    then err invalid_key
    else ok (kind, key_prefix, secret)
check_parts _ = err invalid_key

unfoldable pub parse_plain_text : Text → Result KeyError (Text × Text × Text)
unfolding split_max
parse_plain_text s = if ltb 512 (length s) then err invalid_key else check_parts (split_max 3 s)

-- Either there is no "_", or the first one parts the text.
pub split_cases :
    (n : ℕ) (s : Text)
    → (has_char 95 s ≡ false) × (split_max (suc n) s ≡ s ∷ [])
      ⊎ (w : Text) × (r : Text) × (s ≡ w ++ 95 ∷ r)
        × (has_char 95 w ≡ false)
        × (split_max (suc n) s ≡ w ∷ split_max n r)
unfolding split_max
split_cases n [] = inl (refl, refl)
split_cases n (c ∷ s) = elim (Bool-cases (eqb c 95)) [
  | inl sep ↦ let is : c ≡ 95 = ground arith in rw is (inr ([], s, refl, refl, refl))
  | inr char ↦ elim (split_cases n s) [
    | inl (none_there, e) ↦ inl (ground (arith, char, none_there), rw (char, e) refl)
    | inr (w, r, parts, clean, e) ↦
        inr (c ∷ w, r, ap (λ t. c ∷ t) parts, ground (arith, char, clean), rw (char, e) refl)
  ]
]

pub split-word :
    (n : ℕ) (w r : Text)
    → has_char 95 w ≡ false
    → split_max (suc n) (w ++ 95 ∷ r) ≡ w ∷ split_max n r
unfolding split_max
split-word n [] r h = refl
split-word n (c ∷ w) r h =
    let char : eqb c 95 ≡ false = ground arith in
    let clean : has_char 95 w ≡ false = ground arith in rw (char, split-word n w r clean) refl
