-- ===== src/ApiKeys/Grants.antt =====
-- `_normalize_mailbox_patterns` and `_unique_int_values` of app/auth/api_keys.py: the lists of a
-- key's grants. What `str.strip` takes for a space is a parameter; a domain id that `int` refuses,
-- or that is a Boolean, is `none`, and a negative one is below 1 like 0.
use rapid_inbox.Base.{
  count_char, has_char, strip_by, Text, ℕ, ◌≤◌, ◌<◌, ◌≡◌, Bool, false, not, ◌||◌, Option, none,
  some, List, [], ◌∷◌, ◌++◌, arith, length, any, ltb, eqb, if◌then◌else◌,
}
use rapid_inbox.Base.Result.{Result, ok, err, ◌>>◌}
use rapid_inbox.Permissions.Scopes.{has}

pub data GrantError : Type 0 where
  too_many empty_pattern invalid_pattern wants_one_at invalid_id : GrantError

abbrev pub max_mailbox_patterns : ℕ
max_mailbox_patterns = 100

-- `any(ord(character) < 32 for character in pattern)`, which covers the null character
abbrev pub has_control : Text → Bool
has_control s = any (λ c. ltb c 32) s

abbrev pub check_pattern : Text → Result GrantError (Unit {0})
check_pattern pattern =
    if eqb (length pattern) 0
    then err empty_pattern
    else if ltb 320 (length pattern)
        || has_control pattern
        || has_char 91 pattern
        || has_char 93 pattern
    then err invalid_pattern
    else if not (eqb (count_char 64 pattern) 1)
    then err wants_one_at
    else ok tt

-- the loop; `normalized` holds what `seen` holds, in order
unfoldable pub pattern_loop : (ℕ → Bool) → List Text → List Text → Result GrantError (List Text)
pattern_loop is_space normalized [] = ok normalized
pattern_loop is_space normalized (value ∷ values) =
    let pattern = strip_by is_space value in
    let old = pattern_loop is_space normalized values in
    let new = pattern_loop is_space (normalized ++ pattern ∷ []) values in
    check_pattern pattern >> (if has pattern normalized then old else new)

unfoldable pub normalize_mailbox_patterns : (ℕ → Bool) → List Text → Result GrantError (List Text)
unfolding pattern_loop
normalize_mailbox_patterns is_space values =
    if ltb max_mailbox_patterns (length values)
    then err too_many
    else pattern_loop is_space [] values

abbrev pub has_id : ℕ → List ℕ → Bool
has_id k ids = any (eqb k) ids

-- one round of the loop over the ids
unfoldable pub id_loop : List ℕ → List (Option ℕ) → Result GrantError (List ℕ)
id_loop unique [] = ok unique
id_loop unique (none ∷ values) = err invalid_id
id_loop unique (some k ∷ values) =
    let old = id_loop unique values in
    let new = id_loop (unique ++ k ∷ []) values in
    if ltb k 1 then err invalid_id else if has_id k unique then old else new

unfoldable pub unique_int_values : List (Option ℕ) → Result GrantError (List ℕ)
unfolding id_loop
unique_int_values values = if ltb 10000 (length values) then err too_many else id_loop [] values

-- A pattern that a key may carry: not empty, at most 320 characters with exactly one "@", no bracket
-- and no control character.
pub record IsPattern (pattern : Text) : Type 0 where
  pub not_empty : 0 < length pattern
  pub bounded : length pattern ≤ 320
  pub printable : has_control pattern ≡ false
  pub no_bracket : (has_char 91 pattern || has_char 93 pattern) ≡ false
  pub one_at : count_char 64 pattern ≡ 1

pub check_pattern-IsPattern : (pattern : Text) → check_pattern pattern ≡ ok tt → IsPattern pattern
check_pattern-IsPattern pattern h = record {
  not_empty = ground (arith, h);
  bounded = ground (arith, h);
  printable = ground (arith, h);
  no_bracket = ground (arith, h);
  one_at = ground (arith, h);
}
