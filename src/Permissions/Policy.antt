-- ===== src/Permissions/Policy.antt =====
-- The operational bounds of a key that app/auth/permissions.py finds within the acting principal.
use rapid_inbox.Base.{
  ℕ, ◌≤◌, ◌<◌, ◌≡◌, refl, ◌⊎◌, inl, inr, Bool, true, false, not, ◌&&◌, ◌||◌, Option, none, some,
  List, [], ◌∷◌, arith, any, all, ltb, Bool-cases, and-true, Text,
}
use rapid_inbox.Permissions.Context.{PermissionContext}
use rapid_inbox.Permissions.Within.{
  Networks, Target, rate_is_within, parse_networks, no_network, networks_within, parse_expiration,
  not_after, expiration_within, delegated_policy_is_within,
}

rate_bounds :
    (limit : ℕ) (target : Option ℕ)
    → rate_is_within limit target ≡ true
    → (limit ≡ 0) ⊎ (rate : ℕ) × (target ≡ some rate) × (0 < rate) × (rate ≤ limit)
unfolding rate_is_within
rate_bounds limit none h = cc
rate_bounds limit (some rate) h = elim (Bool-cases (ltb 0 limit)) [
  | inl limited ↦ inr (rate, refl, ground arith, ground arith)
  | inr free ↦ inl (ground arith)
]

not-eq_true : (b : Bool) → not b ≡ true → b ≡ false
not-eq_true true h = cc
not-eq_true false h = refl

module _ (lib : Networks) where
  open lib use {Network, Address, contains, subnet_of, subnet_contains}

  -- An address is allowed by a list of networks; the empty list allows all.
  abbrev pub any_contains : List Network → Address → Bool
  any_contains ns a = any (λ n. contains n a) ns

  abbrev pub allows : Option (List Network) → Address → Bool
  allows none a = false
  allows (some ns) a = no_network lib ns || any_contains ns a

  any-subnet :
      (child : Network) (parents : List Network) (a : Address)
      → any (λ parent. subnet_of child parent) parents ≡ true
      → contains child a ≡ true
      → any_contains parents a ≡ true
  any-subnet child [] a h k = cc
  any-subnet child (p ∷ parents) a h k = elim (Bool-cases (subnet_of child p)) [
    | inl inside ↦ rw (subnet_contains child p a inside k)
    | inr outside ↦ ground (arith, any-subnet child parents a (ground (arith, h, outside)) k)
  ]

  all-subnets :
      (children parents : List Network) (a : Address)
      → all (λ child. any (λ parent. subnet_of child parent) parents) children ≡ true
      → any_contains children a ≡ true
      → any_contains parents a ≡ true
  all-subnets [] parents a h k = cc
  all-subnets (c ∷ children) parents a h k =
      let (now, later) = and-true _ _ h in
      elim (Bool-cases (contains c a)) [
        | inl here ↦ any-subnet c parents a now here
        | inr other ↦ all-subnets children parents a later (ground (arith, k, other))
      ]

  networks_within-allows :
      (parents children : Option (List Network)) (a : Address)
      → networks_within lib parents children ≡ true
      → allows children a ≡ true
      → allows parents a ≡ true
  networks_within-allows (some ps) (some []) a h k = ground arith
  networks_within-allows (some ps) (some (c ∷ children)) a h k =
      elim (Bool-cases (no_network lib ps)) [
        | inl every ↦ rw every
        | inr some_parent ↦
            let inside : all (λ child. any (λ parent. subnet_of child parent) ps) (c ∷ children)
                ≡ true =
              rw some_parent at h in
            rw (some_parent, all-subnets (c ∷ children) ps a inside k)
      ]
  networks_within-allows none children a h k = cc
  networks_within-allows (some ps) none a h k = cc

  not_after-eq_true :
      (t p : Option ℕ)
      → not_after lib t p ≡ true
      → (m : ℕ) × (n : ℕ) × (t ≡ some m) × (p ≡ some n) × (m ≤ n)
  not_after-eq_true (some m) (some n) le = (m, n, refl, refl, ground arith)
  not_after-eq_true none p le = cc
  not_after-eq_true (some m) none le = cc

  abbrev pub ExpiresWithin : Option Text → Option Text → Type 0
  ExpiresWithin p t =
      (p ≡ none)
      ⊎ (m : ℕ) × (n : ℕ) × (parse_expiration lib t ≡ some m)
        × (parse_expiration lib p ≡ some n)
        × (m ≤ n)

  expires_bounds : (p t : Option Text) → expiration_within lib p t ≡ true → ExpiresWithin p t
  expires_bounds none t le = inl refl
  expires_bounds (some p) t le =
      inr (not_after-eq_true (parse_expiration lib t) (parse_expiration lib (some p)) le)

  policy_parts :
      (principal : PermissionContext) (target : Target)
      → delegated_policy_is_within lib principal target ≡ true
      → (rate_is_within principal.rate_limit_per_min target.rate_limit_per_min ≡ true)
        × (networks_within lib
              (parse_networks lib principal.allowed_ip_cidrs)
              (parse_networks lib target.allowed_ip_cidrs)
            ≡ true)
        × (expiration_within lib principal.expires_at target.expires_at ≡ true)
        × ((target.allow_header && not principal.allow_header) ≡ false)
        × ((target.allow_query && not principal.allow_query) ≡ false)
  unfolding delegated_policy_is_within
  policy_parts principal target h =
      let (abcd, query) = and-true _ _ h in
      let (abc, header) = and-true _ _ abcd in
      let (ab, expires) = and-true _ _ abc in
      let (rate, networks) = and-true _ _ ab in
      (rate, networks, expires, not-eq_true _ header, not-eq_true _ query)

  -- The operational bounds of a key found within the principal: its rate is limited where the
  -- principal's is, and by no more; it is used from no address that is closed to the principal;
  -- it expires where the principal does, and not later; it uses no transport that the principal
  -- lacks.
  pub delegated_policy_bounds :
      (principal : PermissionContext) (target : Target) (a : Address)
      → delegated_policy_is_within lib principal target ≡ true
      → allows (parse_networks lib target.allowed_ip_cidrs) a ≡ true
      → ((principal.rate_limit_per_min ≡ 0)
          ⊎ (rate : ℕ) × (target.rate_limit_per_min ≡ some rate)
            × (0 < rate)
            × (rate ≤ principal.rate_limit_per_min))
        × (allows (parse_networks lib principal.allowed_ip_cidrs) a ≡ true)
        × ExpiresWithin principal.expires_at target.expires_at
        × ((target.allow_header ≡ false) ⊎ (principal.allow_header ≡ true))
        × ((target.allow_query ≡ false) ⊎ (principal.allow_query ≡ true))
  delegated_policy_bounds principal target a h k =
      let (rate, networks, expires, header, query) = policy_parts principal target h in
      (
        rate_bounds principal.rate_limit_per_min target.rate_limit_per_min rate,
        networks_within-allows (parse_networks lib principal.allowed_ip_cidrs)
            (parse_networks lib target.allowed_ip_cidrs) a networks k,
        expires_bounds principal.expires_at target.expires_at expires,
        ground (arith, header),
        ground (arith, query),
      )
