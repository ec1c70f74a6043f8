-- ===== src/ApiKeys/Access.antt =====
-- Who is authenticated by app/auth/api_keys.py.
use rapid_inbox.Base.{
  ℕ, ◌≡◌, refl, ◌⊎◌, inl, inr, Bool, true, false, not, Option, none, some, List, [], ◌∷◌, arith,
  Bool-cases, Text, codes, text_eq, text_eq_iff, Elem,
}
use rapid_inbox.Base.Result.{Result, ok, ◌>>=◌, >>=-ok_cases, >>-ok}
use rapid_inbox.Permissions.Context.{PermissionContext}
use rapid_inbox.ApiKeys.Plain.{
  KeyError, ip_denied, header_disabled, query_disabled, invalid_transport, parse_plain_text,
}
use rapid_inbox.ApiKeys.Record.{
  Decoded, undecodable, one_text, texts, other_value, Libraries, AuthenticationRecord, require_key,
  check_transport, expiration_is_due, network_round, any_network, address_allowed, parsed_allowed,
  request_ip_allowed, known_ip_allowed, validate_authentication_record, authenticate_plain_text,
}

require_key-true : (b : Bool) (e : KeyError) → require_key b e ≡ ok tt → b ≡ true
require_key-true true e h = refl
require_key-true false e h = cc

not-true : (b : Bool) → not b ≡ true → b ≡ false
not-true true h = cc
not-true false h = refl

err-ok : (e : KeyError) → require_key false e ≡ ok tt → ⊥
err-ok e h = cc

-- The key may come by this transport.
abbrev pub Carries : Text → AuthenticationRecord → Type 0
Carries transport r =
    (transport ≡ codes "header") × (r.allow_header ≡ true)
    ⊎ (transport ≡ codes "query") × (r.allow_query ≡ true)

check_transport-Carries :
    (transport : Text) (r : AuthenticationRecord)
    → check_transport transport r ≡ ok tt
    → Carries transport r
unfolding check_transport
check_transport-Carries transport r h = elim (Bool-cases (text_eq transport (codes "header"))) [
  | inl a ↦ inl (
    (text_eq_iff transport (codes "header")).0 a,
    require_key-true r.allow_header header_disabled (rw a at h),
  )
  | inr a ↦ elim (Bool-cases (text_eq transport (codes "query"))) [
    | inl b ↦ inr (
      (text_eq_iff transport (codes "query")).0 b,
      require_key-true r.allow_query query_disabled (rw (a, b) at h),
    )
    | inr b ↦ elim (err-ok invalid_transport (rw (a, b) at h)) [ ]
  ]
]

module _ (lib : Libraries) where
  open lib use {Address, Network, ip_address, ip_network, contains, loads, sha256}

  -- One of the networks holds the address.
  abbrev pub Holds : Address → List Text → Type 0
  Holds a cidrs =
      (cidr : Text) × (n : Network) × Elem cidr cidrs
      × (ip_network cidr ≡ some n)
      × (contains n a ≡ true)

  round-Holds :
      (a : Address) (s : Text) (cidrs : List Text) (o : Option Network) {rest : Bool}
      → ip_network s ≡ o
      → (rest ≡ true → Holds a cidrs)
      → network_round lib a o rest ≡ true
      → Holds a (s ∷ cidrs)
  round-Holds a s cidrs none e f h = cc
  round-Holds a s cidrs (some n) e f h = elim (Bool-cases (contains n a)) [
    | inl c ↦ (s, n, inl refl, e, c)
    | inr c ↦ let (t, m, i, k, d) = f (rw c at h) in (t, m, inr i, k, d)
  ]

  any_network-Holds :
      (a : Address) (cidrs : List Text) → any_network lib a cidrs ≡ true → Holds a cidrs
  unfolding any_network
  any_network-Holds a [] h = cc
  any_network-Holds a (s ∷ cidrs) h =
      round-Holds a s cidrs (ip_network s) refl (any_network-Holds a cidrs) h

  -- What a request's address must be for a list of networks, or a text that is not set.
  abbrev pub Admits : Text → Option Text → Type 0
  Admits ip none = Unit
  Admits ip (some []) = Unit
  Admits ip (some (c ∷ raw)) =
      (a : Address) × (ip_address ip ≡ some a)
      × ((loads (c ∷ raw) ≡ texts [])
          ⊎ (cidrs : List Text) × ((loads (c ∷ raw) ≡ texts cidrs)
              ⊎ (s : Text) × (cidrs ≡ s ∷ []) × (loads (c ∷ raw) ≡ one_text s))
            × Holds a cidrs)

  abbrev pub MayCome : Option Text → Option Text → Type 0
  MayCome none cidrs = Unit
  MayCome (some ip) cidrs = Admits ip cidrs

  address-Admits :
      (ip : Text) (c : ℕ) (raw : Text) (a : Address) (d : Decoded)
      → ip_address ip ≡ some a
      → loads (c ∷ raw) ≡ d
      → address_allowed lib a d ≡ true
      → Admits ip (some (c ∷ raw))
  unfolding address_allowed
  address-Admits ip c raw a undecodable e l h = cc
  address-Admits ip c raw a (one_text s) e l h =
      (a, e, inr (s ∷ [], inr (s, refl, l), any_network-Holds a (s ∷ []) h))
  address-Admits ip c raw a (texts []) e l h = (a, e, inl l)
  address-Admits ip c raw a (texts (s ∷ cidrs)) e l h =
      (a, e, inr (s ∷ cidrs, inl l, any_network-Holds a (s ∷ cidrs) h))
  address-Admits ip c raw a other_value e l h = cc

  parsed-Admits :
      (ip : Text) (c : ℕ) (raw : Text) (o : Option Address)
      → ip_address ip ≡ o
      → parsed_allowed lib o (c ∷ raw) ≡ true
      → Admits ip (some (c ∷ raw))
  parsed-Admits ip c raw none e h = cc
  parsed-Admits ip c raw (some a) e h = address-Admits ip c raw a (loads (c ∷ raw)) e refl h

  known-MayCome : (ip cidrs : Option Text) → known_ip_allowed lib ip cidrs ≡ true → MayCome ip cidrs
  unfolding request_ip_allowed
  known-MayCome none cidrs h = tt
  known-MayCome (some ip) none h = tt
  known-MayCome (some ip) (some []) h = tt
  known-MayCome (some ip) (some (c ∷ raw)) h = parsed-Admits ip c raw (ip_address ip) refl h

  -- What a record must be for a secret to be let in.
  pub record LetsIn (now : ℕ) (transport : Text) (request_ip : Option Text) (secret : Text)
      (r : AuthenticationRecord) : Type 0 where
    pub secret_known : sha256 secret ≡ r.secret_hash
    pub active : r.status ≡ codes "active"
    pub carried : Carries transport r
    pub unexpired : expiration_is_due lib now r.expires_at ≡ false
    pub may_come : MayCome request_ip r.allowed_ip_cidrs

  validate-LetsIn :
      (now : ℕ) (transport : Text) (request_ip : Option Text) (secret : Text)
      (r : AuthenticationRecord) (context : PermissionContext)
      → validate_authentication_record lib now transport request_ip secret r ≡ ok context
      → LetsIn now transport request_ip secret r × (context ≡ r.context)
  unfolding validate_authentication_record
  validate-LetsIn now transport request_ip secret r context h =
      let (a, h1) = >>-ok _ _ h in
      let (b, h2) = >>-ok _ _ h1 in
      let (c, h3) = >>-ok _ _ h2 in
      let (d, h4) = >>-ok _ _ h3 in
      let (_, e, f) =
        >>=-ok_cases (require_key (known_ip_allowed lib request_ip r.allowed_ip_cidrs) ip_denied)
          (λ _. ok r.context) h4 in
      (
        record {
          secret_known = (text_eq_iff (sha256 secret) r.secret_hash).0 (require_key-true _ _ a);
          active = (text_eq_iff r.status (codes "active")).0 (require_key-true _ _ b);
          carried = check_transport-Carries transport r c;
          unexpired = not-true _ (require_key-true _ _ d);
          may_come = known-MayCome request_ip r.allowed_ip_cidrs (require_key-true _ _ e);
        },
        ground arith,
      )

  -- A text is authenticated only as the key that it names: its kind and prefix find a record with
  -- the digest of its secret, which is active, allows the transport, is not due to expire, and,
  -- if the address of the request is known and the record lists networks, has one that holds the
  -- address; and the context is that of the record.
  pub authenticate_plain_text_sound :
      (find : Text → Text → Result KeyError AuthenticationRecord) (now : ℕ) (transport : Text)
      (request_ip : Option Text) (plain : Text) (context : PermissionContext)
      → authenticate_plain_text lib find now transport request_ip plain ≡ ok context
      → (kind key_prefix secret : Text) × (r : AuthenticationRecord) × (parse_plain_text plain
          ≡ ok (kind, key_prefix, secret))
        × (find kind key_prefix ≡ ok r)
        × LetsIn now transport request_ip secret r
        × (context ≡ r.context)
  unfolding authenticate_plain_text
  authenticate_plain_text_sound find now transport request_ip plain context h =
      let (parts, e, h1) =
        >>=-ok_cases (parse_plain_text plain)
          (λ parts. find parts.0 parts.1 >>= λ r.
            validate_authentication_record lib now transport request_ip parts.2 r)
          h in
      let (r, f, h2) =
        >>=-ok_cases (find parts.0 parts.1)
          (λ r. validate_authentication_record lib now transport request_ip parts.2 r) h1 in
      let (l, c) = validate-LetsIn now transport request_ip parts.2 r context h2 in
      (parts.0, parts.1, parts.2, r, e, f, l, c)
