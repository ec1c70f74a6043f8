-- ===== src/ApiKeys/Checks.antt =====
-- Which texts `_parse_plain_text` of app/auth/api_keys.py accepts.
use rapid_inbox.Base.{
  text_eq, text_eq_iff, codes, has_char, Text, ◌≤◌, ◌<◌, ◌≡◌, refl, ap, ◌∙◌, ◌↔◌, inl, inr, true,
  false, [], ◌∷◌, ◌++◌, arith, length, ltb, Bool-cases,
}
use rapid_inbox.Base.Result.{ok, err}
use rapid_inbox.Permissions.Scopes.{has}
use rapid_inbox.ApiKeys.Plain.{
  valid_api_key_kinds, invalid_key, split_max, check_parts, parse_plain_text, split_cases,
  split-word,
}

-- the text of a key
abbrev pub plain_text : Text → Text → Text → Text
plain_text kind key_prefix secret = codes "ri" ++ 95 ∷ (kind ++ 95 ∷ (key_prefix ++ 95 ∷ secret))

-- A key as the service makes it: a kind that exists, and a prefix and a secret that are not empty,
-- the prefix without "_".
abbrev pub IsKey : Text → Text → Text → Type 0
IsKey kind key_prefix secret =
    (has kind valid_api_key_kinds ≡ true)
    × (has_char 95 key_prefix ≡ false)
    × (0 < length key_prefix)
    × (0 < length secret)

kind_clean : (kind : Text) → has kind valid_api_key_kinds ≡ true → has_char 95 kind ≡ false
kind_clean kind h = elim (Bool-cases (text_eq kind (codes "admin"))) [
  | inl e ↦ (let is = (text_eq_iff kind (codes "admin")).0 e in rw is refl)
  | inr a ↦ elim (Bool-cases (text_eq kind (codes "public"))) [
    | inl e ↦ (let is = (text_eq_iff kind (codes "public")).0 e in rw is refl)
    | inr b ↦
        let e : text_eq kind (codes "service") ≡ true = ground (arith, h, a, b) in
        let is = (text_eq_iff kind (codes "service")).0 e in rw is refl
  ]
]

split-key :
    (kind key_prefix secret : Text)
    → IsKey kind key_prefix secret
    → split_max 3 (plain_text kind key_prefix secret) ≡ codes "ri" ∷ kind ∷ key_prefix ∷ secret ∷ []
unfolding split_max
split-key kind key_prefix secret (k, p, _, _) =
    split-word 2 (codes "ri") (kind ++ 95 ∷ (key_prefix ++ 95 ∷ secret)) refl
    ∙ ap (λ r. codes "ri" ∷ r)
        (split-word 1 kind (key_prefix ++ 95 ∷ secret) (kind_clean kind k)
          ∙ ap (λ r. kind ∷ r) (split-word 0 key_prefix secret p))

check_parts-key :
    (kind key_prefix secret : Text)
    → IsKey kind key_prefix secret
    → check_parts (codes "ri" ∷ kind ∷ key_prefix ∷ secret ∷ []) ≡ ok (kind, key_prefix, secret)
check_parts-key kind key_prefix secret (k, p, a, b) = ground (arith, k, a, b)

-- The text of a key of at most 512 characters is read as its three parts.
pub parse_plain_text-key :
    (kind key_prefix secret : Text)
    → IsKey kind key_prefix secret
    → length (plain_text kind key_prefix secret) ≤ 512
    → parse_plain_text (plain_text kind key_prefix secret) ≡ ok (kind, key_prefix, secret)
unfolding parse_plain_text
parse_plain_text-key kind key_prefix secret key short =
    let small : ltb 512 (length (plain_text kind key_prefix secret)) ≡ false = ground arith in
    rw (small, split-key kind key_prefix secret key) (check_parts-key kind key_prefix secret key)

check_parts-ok :
    (tag kind' key_prefix' secret' kind key_prefix secret : Text)
    → check_parts (tag ∷ kind' ∷ key_prefix' ∷ secret' ∷ []) ≡ ok (kind, key_prefix, secret)
    → (tag ≡ codes "ri")
      × (kind' ≡ kind)
      × (key_prefix' ≡ key_prefix)
      × (secret' ≡ secret)
      × (has kind valid_api_key_kinds ≡ true)
      × (0 < length key_prefix)
      × (0 < length secret)
check_parts-ok tag kind' key_prefix' secret' kind key_prefix secret h =
    ground (arith, h, text_eq_iff tag (codes "ri"))

short_text :
    (s : Text) (r : Text × Text × Text)
    → parse_plain_text s ≡ ok r
    → (length s ≤ 512) × (check_parts (split_max 3 s) ≡ ok r)
unfolding parse_plain_text
short_text s r h = elim (Bool-cases (ltb 512 (length s))) [
  | inl long ↦ (let h' : err invalid_key ≡ (ok r) = rw long at h in cc)
  | inr short ↦ (ground arith, rw short at h)
]

-- A text that splits into four parts is made of them, and only the last holds a "_".
split_four :
    (s : Text) (r : Text × Text × Text)
    → check_parts (split_max 3 s) ≡ ok r
    → (tag : Text) × (kind : Text) × (key_prefix : Text) × (secret : Text) × (s
        ≡ tag ++ 95 ∷ (kind ++ 95 ∷ (key_prefix ++ 95 ∷ secret)))
      × (has_char 95 key_prefix ≡ false)
      × (check_parts (tag ∷ kind ∷ key_prefix ∷ secret ∷ []) ≡ ok r)
unfolding split_max
split_four s r h = elim (split_cases 2 s) [
  | inl (_, e) ↦ (let h' : err invalid_key ≡ (ok r) = rw e at h in cc)
  | inr (tag, t, parts, _, e) ↦ elim (split_cases 1 t) [
    | inl (_, f) ↦ (let h' : err invalid_key ≡ (ok r) = rw (e, f) at h in cc)
    | inr (kind, u, parts', _, f) ↦ elim (split_cases 0 u) [
      | inl (_, g) ↦ (let h' : err invalid_key ≡ (ok r) = rw (e, f, g) at h in cc)
      | inr (key_prefix, secret, parts'', clean, g) ↦
          let h' : check_parts (tag ∷ kind ∷ key_prefix ∷ secret ∷ []) ≡ ok r = rw (e, f, g) at h in
          (
            tag,
            kind,
            key_prefix,
            secret,
            parts ∙ ap (λ x. tag ++ 95 ∷ x) (parts' ∙ ap (λ x. kind ++ 95 ∷ x) parts''),
            clean,
            h',
          )
    ]
  ]
]

-- A text is read as a kind, a prefix and a secret exactly when it is the text of that key and has
-- at most 512 characters.
pub parse_plain_text_iff :
    (s kind key_prefix secret : Text)
    → (parse_plain_text s ≡ ok (kind, key_prefix, secret))
      ↔ ((s ≡ plain_text kind key_prefix secret) × IsKey kind key_prefix secret × (length s ≤ 512))
parse_plain_text_iff s kind key_prefix secret = (
  (λ h.
      let (short, checked) = short_text s (kind, key_prefix, secret) h in
      let (tag, kind', prefix', secret', parts, clean, four) =
        split_four s (kind, key_prefix, secret) checked in
      let (t, k, p, x, valid, some_prefix, some_secret) =
        check_parts-ok tag kind' prefix' secret' kind key_prefix secret four in
      (rw (t, k, p, x) at parts, (valid, rw p at clean, some_prefix, some_secret), short)),
  (λ (e, key, short). rw e (parse_plain_text-key kind key_prefix secret key (rw e at short))),
)
