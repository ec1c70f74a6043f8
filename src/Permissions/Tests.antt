-- ===== src/Permissions/Tests.antt =====
-- Tests of the permission checks, and the example runs of their theorems.
use rapid_inbox.Permissions.Context.{
  check_mailbox, check_domain, PermissionContext, ensure_mailbox_access, mode_selected,
}
use rapid_inbox.Base.{
  codes, Text, ℕ, ◌+◌, ◌≤◌, ◌<◌, ◌≡◌, refl, ◌≢◌, ◌↔◌, ◌⊎◌, Bool, true, false, ◌&&◌, Option, none,
  some, [], ◌∷◌, arith, length, leb, eqb,
}
use rapid_inbox.Base.Result.{ok}
use rapid_inbox.Permissions.Scopes.{
  has, service_api_key_scopes, kind_scopes, normalize_scopes, validate_scopes_for_kind,
}
use rapid_inbox.Permissions.Fnmatch.{
  closing_from, bracket_length, bracket_ranges, read_bracket, translate, match_tokens, fnmatch,
}
use rapid_inbox.Permissions.Glob.{mailbox_pattern_matches, Matches, mailbox_pattern_matches_iff}
use rapid_inbox.Permissions.Within.{
  Networks, Target, parse_networks, parse_expiration, drop_suffix, implied_reads, effective_scopes,
  rate_is_within, delegated_policy_is_within, domains_are_within, pattern_is_within,
  mailboxes_are_within, api_key_is_within_principal,
}
use rapid_inbox.Permissions.Validation.{IsDistinct, stripped, validate_scopes_sound}
use rapid_inbox.Permissions.Delegation.{grants_of, with_reads, ensure_mailbox_access-within}
use rapid_inbox.Permissions.Policy.{allows, ExpiresWithin, delegated_policy_bounds}

abbrev is_space : ℕ → Bool
is_space c = eqb c 32

validate_scopes_sound_example :
    (codes "live.read" ∷ codes "smtp.read" ∷ [] ≢ [])
    × IsDistinct (codes "live.read" ∷ codes "smtp.read" ∷ [])
    × (has (codes "smtp.read") (codes "live.read" ∷ codes "smtp.read" ∷ [])
        ≡ has
            (codes "smtp.read")
            (stripped is_space (codes " live.read" ∷ codes "smtp.read " ∷ codes "live.read" ∷ [])))
    × ((has (codes "smtp.read") (codes "live.read" ∷ codes "smtp.read" ∷ []) ≡ false)
        ⊎ (has (codes "smtp.read") service_api_key_scopes ≡ true))
unfolding kind_scopes normalize_scopes validate_scopes_for_kind
validate_scopes_sound_example =
    validate_scopes_sound is_space (codes "service")
      (codes " live.read" ∷ codes "smtp.read " ∷ codes "live.read" ∷ []) service_api_key_scopes
      (codes "live.read" ∷ codes "smtp.read" ∷ []) (codes "smtp.read") refl refl

patterns :
    (mailbox_pattern_matches (codes "ann@x.org") (codes "*@x.org") ≡ true)
    × (mailbox_pattern_matches (codes "ann@x.org") (codes "a?n@*") ≡ true)
    × (mailbox_pattern_matches (codes "ann@x.org") (codes "a?@*") ≡ false)
unfolding closing_from bracket_length bracket_ranges read_bracket translate match_tokens fnmatch
    mailbox_pattern_matches
patterns = (refl, refl, refl)

-- Brackets as Python's matcher reads them: lists, ranges, negation, a "]" in front, one left open.
brackets :
    (fnmatch (codes "[ab]@x") (codes "a@x") ≡ true)
    × (fnmatch (codes "[a-c]@x") (codes "d@x") ≡ false)
    × (fnmatch (codes "[!a-c]@x") (codes "d@x") ≡ true)
    × (fnmatch (codes "[]a]*") (codes "]b") ≡ true)
    × (fnmatch (codes "[ab") (codes "[ab") ≡ true)
    × (fnmatch (codes "x[a-]") (codes "x-") ≡ true)
unfolding closing_from bracket_length bracket_ranges read_bracket translate match_tokens fnmatch
brackets = (refl, refl, refl, refl, refl, refl)

-- A pattern with brackets in a list of patterns may be found within a pattern that does not hold all
-- that it matches; a key cannot be made with one.
bracket_escapes :
    (pattern_is_within (codes "????@x.org" ∷ []) (codes "[ab]@x.org") ≡ true)
    × (mailbox_pattern_matches (codes "a@x.org") (codes "[ab]@x.org") ≡ true)
    × (mailbox_pattern_matches (codes "a@x.org") (codes "????@x.org") ≡ false)
unfolding closing_from bracket_length bracket_ranges read_bracket translate match_tokens fnmatch
    mailbox_pattern_matches pattern_is_within
bracket_escapes = (refl, refl, refl)

mailbox_pattern_matches_iff_example :
    (mailbox_pattern_matches (codes "ann@x.org") (codes "a*@x.???") ≡ true)
    ↔ Matches (codes "a*@x.???") (codes "ann@x.org")
mailbox_pattern_matches_iff_example =
    mailbox_pattern_matches_iff (codes "ann@x.org") (codes "a*@x.???") refl

-- A network is a range of numbers and a date is the length of its text.
abbrev in_range : ℕ × ℕ → ℕ → Bool
in_range n a = leb n.0 a && leb a n.1

abbrev network_of : Text → Option (ℕ × ℕ)
network_of [] = none
network_of (c ∷ s) = some (c, c + length s)

in_range-subnet :
    (child parent : ℕ × ℕ) (a : ℕ)
    → (leb parent.0 child.0 && leb child.1 parent.1) ≡ true
    → in_range child a ≡ true
    → in_range parent a ≡ true
in_range-subnet (l, h) (l', h') a sub inside = ground arith

abbrev ranges : Networks
ranges = record {
  Network = ℕ × ℕ;
  Address = ℕ;
  ip_network = network_of;
  contains = in_range;
  subnet_of = λ child parent. leb parent.0 child.0 && leb child.1 parent.1;
  subnet_contains = in_range-subnet;
  fromisoformat = λ s. some (length s);
}

abbrev acting : PermissionContext
acting = record {
  scopes = codes "mailboxes.write" ∷ codes "live.read" ∷ [];
  domain_ids = 3 ∷ 5 ∷ [];
  mailbox_patterns = codes "*@x.org" ∷ [];
  domain_grant_mode = mode_selected;
  api_key_id = some 1;
  public_id = codes "key_1";
  name = codes "parent";
  kind = codes "admin";
  legacy_credential = false;
  rate_limit_per_min = 60;
  allowed_ip_cidrs = codes "0....." ∷ [];
  expires_at = some (codes "2030");
  allow_header = true;
  allow_query = false;
  admin_id = none;
  admin_session_id = none;
}

abbrev wanted : Target
wanted = record {
  rate_limit_per_min = some 10;
  allowed_ip_cidrs = codes "1.." ∷ [];
  expires_at = some (codes "203");
  allow_header = true;
  allow_query = false;
  scopes = codes "mailboxes.read" ∷ [];
  domain_grant_mode = mode_selected;
  domain_ids = some (5 ∷ []);
  mailbox_patterns = codes "ann@x.org" ∷ [];
}

wanted_within : api_key_is_within_principal ranges acting wanted ≡ true
unfolding closing_from bracket_length bracket_ranges read_bracket translate match_tokens fnmatch
    drop_suffix implied_reads effective_scopes rate_is_within parse_networks parse_expiration
    delegated_policy_is_within domains_are_within pattern_is_within mailboxes_are_within
    api_key_is_within_principal
wanted_within = refl

wanted_policy : delegated_policy_is_within ranges acting wanted ≡ true
unfolding rate_is_within parse_networks parse_expiration delegated_policy_is_within
wanted_policy = refl

wanted_access :
    ensure_mailbox_access (grants_of wanted) (codes "ann@x.org") 5 (codes "mailboxes.read") ≡ ok tt
unfolding closing_from bracket_length bracket_ranges read_bracket translate match_tokens fnmatch
    mailbox_pattern_matches check_domain check_mailbox ensure_mailbox_access
wanted_access = refl

wanted_address : allows ranges (parse_networks ranges wanted.allowed_ip_cidrs) 50 ≡ true
unfolding parse_networks
wanted_address = refl

ensure_mailbox_access-within_example :
    ensure_mailbox_access (with_reads acting) (codes "ann@x.org") 5 (codes "mailboxes.read") ≡ ok tt
ensure_mailbox_access-within_example =
    ensure_mailbox_access-within ranges acting wanted (codes "ann@x.org") 5 (codes "mailboxes.read")
      refl wanted_within wanted_access

delegated_policy_bounds_example :
    ((acting.rate_limit_per_min ≡ 0)
      ⊎ (rate : ℕ) × (wanted.rate_limit_per_min ≡ some rate)
        × (0 < rate)
        × (rate ≤ acting.rate_limit_per_min))
    × (allows ranges (parse_networks ranges acting.allowed_ip_cidrs) 50 ≡ true)
    × ExpiresWithin ranges acting.expires_at wanted.expires_at
    × ((wanted.allow_header ≡ false) ⊎ (acting.allow_header ≡ true))
    × ((wanted.allow_query ≡ false) ⊎ (acting.allow_query ≡ true))
delegated_policy_bounds_example =
    delegated_policy_bounds ranges acting wanted 50 wanted_policy wanted_address
