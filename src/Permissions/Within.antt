-- ===== src/Permissions/Within.antt =====
-- The containment of a delegated key in the acting principal, from app/auth/permissions.py. The
-- libraries that parse networks and dates are parameters.
use rapid_inbox.Base.{
  ℕ, ◌≡◌, Bool, true, false, not, ◌&&◌, ◌||◌, Option, none, some, List, [], ◌∷◌, ◌++◌, any, all,
  ltb, leb, eqb, if◌then◌else◌, Text, codes, text_eq, has_char,
}
use rapid_inbox.Permissions.Scopes.{has}
use rapid_inbox.Permissions.Fnmatch.{fnmatch}
use rapid_inbox.Permissions.Context.{
  PermissionContext, mode_all, mode_selected, mode_none, has_id, is_nil,
}

-- `ipaddress.ip_network(…, strict=False)`, the membership of an address (of an own type), and
-- `child.version == parent.version and child.subnet_of(parent)` with what it means; and
-- `datetime.fromisoformat`, read as a point in time.
pub record Networks : Type 1 where
  pub Network : Type 0
  pub Address : Type 0
  pub ip_network : Text → Option Network
  pub contains : Network → Address → Bool
  pub subnet_of : Network → Network → Bool
  pub subnet_contains :
      (child parent : Network) (a : Address)
      → subnet_of child parent ≡ true
      → contains child a ≡ true
      → contains parent a ≡ true
  pub fromisoformat : Text → Option ℕ

-- The policy of the key to be made: what `target` holds, its defaults filled in. A value that
-- `int()` or the checks behind it refuse is `none`.
pub record Target : Type 0 where
  pub rate_limit_per_min : Option ℕ
  pub allowed_ip_cidrs : List Text
  pub expires_at : Option Text
  pub allow_header : Bool
  pub allow_query : Bool
  pub scopes : List Text
  pub domain_grant_mode : Text
  pub domain_ids : Option (List ℕ)
  pub mailbox_patterns : List Text

unfoldable pub rate_is_within : ℕ → Option ℕ → Bool
rate_is_within limit none = false
rate_is_within limit (some rate) = not (ltb 0 limit && (eqb rate 0 || ltb limit rate))

-- "x.write" gives "x.read"
abbrev cons_some : ℕ → Option Text → Option Text
cons_some c none = none
cons_some c (some s) = some (c ∷ s)

-- `s[:-n]` if `s.endswith(suffix)`
unfoldable pub drop_suffix : Text → Text → Option Text
drop_suffix suffix [] = if text_eq [] suffix then some [] else none
drop_suffix suffix (c ∷ s) =
    let shorter = cons_some c (drop_suffix suffix s) in
    if text_eq (c ∷ s) suffix then some [] else shorter

abbrev read_of : Option Text → List Text
read_of none = []
read_of (some stem) = (stem ++ codes ".read") ∷ []

unfoldable pub implied_reads : List Text → List Text
unfolding drop_suffix
implied_reads [] = []
implied_reads (s ∷ scopes) = read_of (drop_suffix (codes ".write") s) ++ implied_reads scopes

unfoldable pub effective_scopes : PermissionContext → List Text
unfolding implied_reads
effective_scopes principal = principal.scopes ++ implied_reads principal.scopes

abbrev pub ids_within : Option (List ℕ) → List ℕ → Bool
ids_within none allowed = false
ids_within (some ids) allowed = all (λ k. has_id k allowed) ids

abbrev pub are_ids : Option (List ℕ) → Bool
are_ids none = false
are_ids (some ids) = true

unfoldable pub domains_are_within : PermissionContext → Target → Bool
domains_are_within principal target =
    let every = text_eq principal.domain_grant_mode mode_all in
    let allowed : List ℕ =
      if text_eq principal.domain_grant_mode mode_selected then principal.domain_ids else [] in
    if text_eq target.domain_grant_mode mode_all
    then every
    else if text_eq target.domain_grant_mode mode_selected
    then (if every then are_ids target.domain_ids else ids_within target.domain_ids allowed)
    else text_eq target.domain_grant_mode mode_none

-- one round of the loop over the target's patterns
unfoldable pub pattern_is_within : List Text → Text → Bool
unfolding fnmatch
pattern_is_within parents pattern =
    has pattern parents
    || not (has_char 42 pattern || has_char 63 pattern)
      && any (λ parent. fnmatch parent pattern) parents

unfoldable pub mailboxes_are_within : List Text → List Text → Bool
unfolding pattern_is_within
mailboxes_are_within parents patterns =
    is_nil parents || not (is_nil patterns) && all (pattern_is_within parents) patterns

module _ (lib : Networks) where
  open lib use {Network, ip_network, subnet_of, fromisoformat}

  abbrev add_network : Option Network → Option (List Network) → Option (List Network)
  add_network (some n) (some ns) = some (n ∷ ns)
  add_network _ _ = none

  unfoldable pub parse_networks : List Text → Option (List Network)
  parse_networks [] = some []
  parse_networks (s ∷ cidrs) = add_network (ip_network s) (parse_networks cidrs)

  abbrev pub no_network : List Network → Bool
  no_network [] = true
  no_network (_ ∷ _) = false

  abbrev pub networks_within : Option (List Network) → Option (List Network) → Bool
  networks_within (some parents) (some children) =
      no_network parents
      || not (no_network children)
        && all (λ child. any (λ parent. subnet_of child parent) parents) children
  networks_within _ _ = false

  -- `_parse_api_key_expiration`
  unfoldable pub parse_expiration : Option Text → Option ℕ
  parse_expiration none = none
  parse_expiration (some []) = none
  parse_expiration (some (c ∷ s)) = fromisoformat (c ∷ s)

  abbrev pub not_after : Option ℕ → Option ℕ → Bool
  not_after (some target) (some parent) = leb target parent
  not_after _ _ = false

  abbrev pub expiration_within : Option Text → Option Text → Bool
  expiration_within none target = true
  expiration_within (some parent) target =
      not_after (parse_expiration target) (parse_expiration (some parent))

  unfoldable pub delegated_policy_is_within : PermissionContext → Target → Bool
  unfolding rate_is_within parse_networks parse_expiration
  delegated_policy_is_within principal target =
      rate_is_within principal.rate_limit_per_min target.rate_limit_per_min
      && networks_within (parse_networks principal.allowed_ip_cidrs)
          (parse_networks target.allowed_ip_cidrs)
      && expiration_within principal.expires_at target.expires_at
      && not (target.allow_header && not principal.allow_header)
      && not (target.allow_query && not principal.allow_query)

  unfoldable pub api_key_is_within_principal : PermissionContext → Target → Bool
  unfolding delegated_policy_is_within effective_scopes domains_are_within mailboxes_are_within
  api_key_is_within_principal principal target =
      delegated_policy_is_within principal target
      && all (λ s. has s (effective_scopes principal)) target.scopes
      && domains_are_within principal target
      && mailboxes_are_within principal.mailbox_patterns target.mailbox_patterns
