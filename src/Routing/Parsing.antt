-- ===== src/Routing/Parsing.antt =====
-- What `parse_mailbox_address` and `normalize_domain` of app/smtp/matcher.py accept.
use rapid_inbox.Base.{
  ℕ, ◌+◌, ◌≤◌, ◌<◌, ◌≡◌, refl, ap, subst, ◌⊎◌, inl, inr, Bool, true, false, not, ◌&&◌, Option, none,
  some, ◌∷◌, ◌++◌, arith, length, any, eqb, if◌then◌else◌, eqb_iff, Bool-cases, and-true, some_eq,
  Text, text_eq, text_eq_iff, has_char, count_char, split_on, before, after, rstrip_by, strip_by,
  utf8_length,
}
use rapid_inbox.Routing.Address.{
  encode_domain, bad_edge, map_dots, checked_ascii, accept_domain, Unicode, valid_ascii_domain,
  star, when, ◌>>=◌, fits, normalize_domain, parse_mailbox_address,
}
use rapid_inbox.Routing.Valid.{
  IsDomain, IsDomain-valid_ascii_domain, has_char-IsDomain, has_char-valid_local_part,
  bytes-valid_local_part, split-before-after,
}

pub when-eq-some :
    {A : Type 0} (b : Bool) (o : Option A) {a : A} → when b o ≡ some a → (b ≡ true) × (o ≡ some a)
when-eq-some true o h = (refl, h)
when-eq-some false o h = cc

pub bind-eq-some {ℓ κ} :
    {A : Type ℓ} {B : Type κ} (o : Option A) (f : A → Option B) {b : B}
    → (o >>= f) ≡ some b
    → (a : A) × (o ≡ some a) × (f a ≡ some b)
bind-eq-some none f h = cc
bind-eq-some (some a) f h = (a, refl, h)

not_empty :
    {A : Type 0} (b : Bool) (o : Option A) (a : A) → (if b then none else o) ≡ some a → o ≡ some a
not_empty true o a h = cc
not_empty false o a h = h

checked_ascii-IsDomain :
    (u : Unicode) (ascii domain : Text) → checked_ascii u ascii ≡ some domain → IsDomain domain
checked_ascii-IsDomain u ascii domain h =
    let (valid, same) = when-eq-some (valid_ascii_domain ascii) (some ascii) h in
    subst IsDomain (some_eq same) (IsDomain-valid_ascii_domain ascii valid)

accept_domain-eq-some :
    (l d l' d' : Text)
    → accept_domain l d ≡ some (l', d')
    → (text_eq d star ≡ false) × (fits l d ≡ true) × (l ≡ l') × (d ≡ d')
accept_domain-eq-some l d l' d' h =
    let (tests, same) = when-eq-some (not (text_eq d star) && fits l d) (some (l, d)) h in
    let pair = some_eq same in
    (ground (arith, tests), (and-true _ _ tests).1, ap (λ p. p.0) pair, ap (λ p. p.1) pair)

pub fits-le :
    (l d : Text) (n : ℕ) → utf8_length l ≡ some n → fits l d ≡ true → n + 1 + length d ≤ 254
fits-le l d n e h = ground arith

one_at : (s : Text) → eqb (count_char 64 s) 1 ≡ true → 0 < count_char 64 s
one_at s h = omega (arith, (eqb_iff (count_char 64 s) 1).0 h)

module _ (u : Unicode) where
  -- A domain that `normalize_domain` accepts is the wildcard or a well-formed ASCII domain name.
  pub normalize_domain-IsDomain :
      (raw domain : Text) → normalize_domain u raw ≡ some domain → (domain ≡ star) ⊎ IsDomain domain
  unfolding normalize_domain
  normalize_domain-IsDomain raw domain h =
      let n = u.lower (rstrip_by (eqb 46) (strip_by u.is_space raw)) in
      elim (Bool-cases (text_eq n star)) [
        | inl wild ↦ inl (ground (arith, text_eq_iff n star))
        | inr plain ↦
            let encoded : encode_domain u n ≡ some domain =
              not_empty (eqb (length n) 0) (encode_domain u n) domain (rw plain at h) in
            let passed = not_empty (any bad_edge (split_on 46 (map_dots n))) _ domain encoded in
            let (ascii, _, checked) =
              bind-eq-some (u.idna n) (λ a. checked_ascii u (u.lower a)) passed in
            inr (checked_ascii-IsDomain u (u.lower ascii) domain checked)
      ]

  IsDomain-ne_star : (d : Text) → (d ≡ star) ⊎ IsDomain d → text_eq d star ≡ false → IsDomain d
  IsDomain-ne_star d (inl e) h = absurd (ground (arith, text_eq_iff d star))
  IsDomain-ne_star d (inr v) h = v

  -- What an accepted address consists of: the text before its "@", unchanged, of 1 to 64 bytes,
  -- and a well-formed ASCII domain name that the text after it normalises to; neither holds an
  -- "@", and together they fit in 254.
  pub parse_mailbox_address_parts :
      (smtputf8 : Bool) (address local_part domain : Text)
      → parse_mailbox_address u smtputf8 address ≡ some (local_part, domain)
      → (raw : Text) × (n : ℕ) × (address ≡ local_part ++ 64 ∷ raw)
        × (normalize_domain u raw ≡ some domain)
        × (utf8_length local_part ≡ some n)
        × (0 < n)
        × (n ≤ 64)
        × (n + 1 + length domain ≤ 254)
        × IsDomain domain
        × (has_char 64 local_part ≡ false)
        × (has_char 64 domain ≡ false)
  unfolding parse_mailbox_address
  parse_mailbox_address_parts smtputf8 address local_part domain h =
      let l = before 64 address in
      let raw = after 64 address in
      let (tests, some_domain) = when-eq-some _ _ h in
      let (d, normal, accepted) =
        bind-eq-some (normalize_domain u raw) (accept_domain l) some_domain in
      let (plain, room, same_local, same_domain) =
        accept_domain-eq-some l d local_part domain accepted in
      let (before_raw, _) = and-true _ _ tests in
      let (before_valid, valid) = and-true _ _ before_raw in
      let (_, one) = and-true _ _ before_valid in
      let (n, width, positive, short) = bytes-valid_local_part u smtputf8 l valid in
      let real : IsDomain d = IsDomain-ne_star d (normalize_domain-IsDomain raw d normal) plain in
      rw (← same_local, ← same_domain)
        (
          raw,
          n,
          split-before-after 64 address (one_at address one),
          normal,
          width,
          positive,
          short,
          fits-le l d n width room,
          real,
          has_char-valid_local_part u smtputf8 l valid,
          has_char-IsDomain d real,
        )
