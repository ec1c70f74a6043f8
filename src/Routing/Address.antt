-- ===== src/Routing/Address.antt =====
-- Parsing and validating addresses, from app/smtp/matcher.py. Texts are lists of code points. The
-- Unicode tables and the IDNA codec of Python's library are parameters.
use rapid_inbox.Base.{
  ℕ, ◌+◌, Bool, true, false, not, ◌&&◌, ◌||◌, Option, none, some, [], ◌∷◌, length, any, all, ltb,
  leb, eqb, if◌then◌else◌, Text, codes, text_eq, has_char, count_char, starts_with_char,
  ends_with_char, split_on, before, after, rstrip_by, strip_by, utf8_length,
}

-- `str.lower`, `str.isspace` of one character, whether `unicodedata.category` begins with "C", and
-- `.encode("idna").decode("ascii")`, which may raise.
pub record Unicode : Type 0 where
  pub lower : Text → Text
  pub is_space : ℕ → Bool
  pub is_other : ℕ → Bool
  pub idna : Text → Option Text

abbrev pub max_local_part_bytes : ℕ
max_local_part_bytes = 64

abbrev pub max_domain_bytes : ℕ
max_domain_bytes = 253

abbrev pub max_mailbox_bytes : ℕ
max_mailbox_bytes = 254

abbrev pub ascii_atext : Text
ascii_atext = codes "!#$%&'*+-/=?^_`{|}~"

-- `str.isalnum` of an ASCII character
unfoldable pub is_alnum : ℕ → Bool
is_alnum c = leb 48 c && leb c 57 || leb 65 c && leb c 90 || leb 97 c && leb c 122

unfoldable pub is_label_char : ℕ → Bool
unfolding is_alnum
is_label_char c = ltb c 128 && (is_alnum c || eqb c 45)

-- `_validate_ascii_domain`: false where it raises ValueError
unfoldable pub valid_label : Text → Bool
unfolding is_label_char
valid_label label =
    ltb 0 (length label)
    && leb (length label) 63
    && not (starts_with_char 45 label || ends_with_char 45 label)
    && all is_label_char label

unfoldable pub valid_ascii_domain : Text → Bool
unfolding valid_label
valid_ascii_domain domain =
    ltb 0 (length domain)
    && leb (length domain) max_domain_bytes
    && all valid_label (split_on 46 domain)

-- "。", "．" and "｡" count as dots
abbrev pub map_dot : ℕ → ℕ
map_dot c = if eqb c 0x3002 || eqb c 0xff0e || eqb c 0xff61 then 46 else c

abbrev pub map_dots : Text → Text
map_dots [] = []
map_dots (c ∷ s) = map_dot c ∷ map_dots s

abbrev pub bad_edge : Text → Bool
bad_edge label = eqb (length label) 0 || starts_with_char 45 label || ends_with_char 45 label

abbrev pub star : Text
star = codes "*"

abbrev pub has_double_dot : Text → Bool
has_double_dot [] = false
has_double_dot (c ∷ []) = false
has_double_dot (c ∷ d ∷ s) = eqb c 46 && eqb d 46 || has_double_dot (d ∷ s)

abbrev pub when : {A : Type 0} → Bool → Option A → Option A
when true o = o
when false o = none

infixl 5 ◌>>=◌
abbrev pub ◌>>=◌ {ℓ κ} : {A : Type ℓ} {B : Type κ} → Option A → (A → Option B) → Option B
none >>= f = none
some a >>= f = f a

abbrev pub within : Text → ℕ → Bool
within s most = elim (utf8_length s) [ none ↦ false | some n ↦ ltb 0 n && leb n most ]

-- the last bound: the local part's bytes, "@" and the domain's characters
abbrev pub fits : Text → Text → Bool
fits local_part domain = elim (utf8_length local_part) [
  | none ↦ false
  | some n ↦ leb (n + 1 + length domain) max_mailbox_bytes
]

abbrev pub all_ascii : Text → Bool
all_ascii s = all (λ c. ltb c 128) s

abbrev pub accept_domain : Text → Text → Option (Text × Text)
accept_domain local_part domain =
    when (not (text_eq domain star) && fits local_part domain) (some (local_part, domain))

module _ (u : Unicode) where
  open u use {lower, is_space, is_other, idna}

  abbrev pub checked_ascii : Text → Option Text
  checked_ascii ascii = when (valid_ascii_domain ascii) (some ascii)

  abbrev pub encode_domain : Text → Option Text
  encode_domain normalized =
      if any bad_edge (split_on 46 (map_dots normalized))
      then none
      else (idna normalized >>= λ ascii. checked_ascii (lower ascii))

  -- `normalize_domain`; `none` where it raises ValueError or UnicodeError
  unfoldable pub normalize_domain : Text → Option Text
  unfolding valid_ascii_domain
  normalize_domain domain =
      let normalized = lower (rstrip_by (eqb 46) (strip_by is_space domain)) in
      if text_eq normalized star
      then some normalized
      else if eqb (length normalized) 0
      then none
      else encode_domain normalized

  -- the loop body of `_valid_local_part`
  unfoldable pub valid_local_char : Bool → ℕ → Bool
  unfolding is_alnum
  valid_local_char allow_smtputf8 c =
      if leb 128 c
      then not (not allow_smtputf8 || is_space c || is_other c)
      else eqb c 46 || is_alnum c || has_char c ascii_atext

  -- `_valid_local_part`
  unfoldable pub valid_local_part : Bool → Text → Bool
  unfolding valid_local_char utf8_length
  valid_local_part allow_smtputf8 local_part =
      within local_part max_local_part_bytes
      && not (
          starts_with_char 46 local_part
          || ends_with_char 46 local_part
          || has_double_dot local_part)
      && all (valid_local_char allow_smtputf8) local_part

  -- `parse_mailbox_address`
  unfoldable pub parse_mailbox_address : Bool → Text → Option (Text × Text)
  unfolding valid_local_part normalize_domain utf8_length
  parse_mailbox_address allow_smtputf8 address =
      let local_part = before 64 address in
      let raw_domain = after 64 address in
      when
        (within address max_mailbox_bytes
          && eqb (count_char 64 address) 1
          && valid_local_part allow_smtputf8 local_part
          && not (
              eqb (length raw_domain) 0
              || ends_with_char 46 raw_domain
              || not (text_eq (strip_by is_space raw_domain) raw_domain)
              || not allow_smtputf8 && not (all_ascii raw_domain)))
        (normalize_domain raw_domain >>= accept_domain local_part)
