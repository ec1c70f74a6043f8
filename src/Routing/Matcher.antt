-- ===== src/Routing/Matcher.antt =====
-- The domain rules and `DomainMatcher` of app/smtp/matcher.py.
use rapid_inbox.Base.{
  ℕ, Bool, true, false, ◌&&◌, ◌||◌, Option, none, some, List, [], ◌∷◌, ◌++◌, eqb, if◌then◌else◌,
  Text, codes, text_eq, before,
}
use rapid_inbox.Routing.Address.{
  Unicode, star, ◌>>=◌, when, fits, normalize_domain, valid_local_part, parse_mailbox_address,
}

pub record DomainRule : Type 0 where
  pub domain_id : ℕ
  pub root_domain_ascii : Text
  pub accept_exact : Bool
  pub accept_subdomains : Bool
  pub plus_addressing_mode : Text
  pub local_part_case_sensitive : Bool

pub record DomainMatch : Type 0 where
  pub domain_id : ℕ
  pub domain_ascii : Text
  pub root_domain_ascii : Text
  pub local_part : Text
  pub local_part_canonical : Text
  pub address_canonical : Text

-- `_rules_by_root` in insertion order, and `_catch_all_rule`
pub record DomainMatcher : Type 0 where
  pub rules_by_root : List (Text × DomainRule)
  pub catch_all_rule : Option DomainRule

unfoldable pub get_rule : Text → List (Text × DomainRule) → Option DomainRule
get_rule root [] = none
get_rule root ((k, rule) ∷ rules) = if text_eq k root then some rule else get_rule root rules

-- `dict.setdefault`
unfoldable pub set_default : Text → DomainRule → List (Text × DomainRule) → List (Text × DomainRule)
set_default root rule [] = (root, rule) ∷ []
set_default root rule ((k, old) ∷ rules) =
    if text_eq k root then (k, old) ∷ rules else (k, old) ∷ set_default root rule rules

abbrev pub first_of_two : Option DomainRule → DomainRule → Option DomainRule
first_of_two none rule = some rule
first_of_two (some old) rule = some old

unfoldable pub add_rule : DomainRule → Text → DomainMatcher → DomainMatcher
unfolding set_default
add_rule rule root m =
    if text_eq root star
    then record m { catch_all_rule = first_of_two m.catch_all_rule rule }
    else record m { rules_by_root = set_default root rule m.rules_by_root }

abbrev pub empty_matcher : DomainMatcher
empty_matcher = record { rules_by_root = []; catch_all_rule = none }

-- The walk over the dots of the domain: the first suffix that is a configured root.
unfoldable pub find_suffix : List (Text × DomainRule) → Text → Option (Text × DomainRule)
unfolding get_rule
find_suffix rules [] = none
find_suffix rules (c ∷ s) =
    let rest = find_suffix rules s in
    let here : Option (Text × DomainRule) = elim (get_rule s rules) [
      | none ↦ rest
      | some rule ↦ some (s, rule)
    ] in
    if eqb c 46 then here else rest

-- What the search settles: the root, the rule, and `is_exact`.
pub record Found : Type 0 where
  pub root : Text
  pub rule : DomainRule
  pub is_exact : Bool

abbrev pub catch_all : Option DomainRule → Option Found
catch_all none = none
catch_all (some rule) = some (record { root = star; rule = rule; is_exact = true })

abbrev pub suffix_or_catch_all : Option (Text × DomainRule) → Option DomainRule → Option Found
suffix_or_catch_all (some (root, rule)) c =
    some (record { root = root; rule = rule; is_exact = false })
suffix_or_catch_all none c = catch_all c

abbrev pub exact_or : Text → Option DomainRule → Option Found → Option Found
exact_or domain (some rule) other = some (record { root = domain; rule = rule; is_exact = true })
exact_or domain none other = other

unfoldable pub find_rule : DomainMatcher → Text → Option Found
unfolding get_rule find_suffix
find_rule m domain =
    exact_or domain (get_rule domain m.rules_by_root)
      (suffix_or_catch_all (find_suffix m.rules_by_root domain) m.catch_all_rule)

-- the two tests that may refuse a found rule
unfoldable pub permits : Found → Bool
permits f =
    text_eq f.root star || (if f.is_exact then f.rule.accept_exact else f.rule.accept_subdomains)

module _ (u : Unicode) where
  -- `__init__`: `none` where the root of a rule raises ValueError
  unfoldable pub build : List DomainRule → DomainMatcher → Option DomainMatcher
  unfolding normalize_domain add_rule
  build [] m = some m
  build (rule ∷ rules) m =
      normalize_domain u rule.root_domain_ascii >>= λ root. build rules (add_rule rule root m)

  abbrev pub canonical_local : DomainRule → Text → Text
  canonical_local rule local_part =
      let plain =
        if text_eq rule.plus_addressing_mode (codes "strip")
        then before 43 local_part
        else local_part in
      if rule.local_part_case_sensitive then plain else u.lower plain

  abbrev pub result : Text → Text → Found → DomainMatch
  result local_part domain f =
      let canonical = canonical_local f.rule local_part in
      record {
        domain_id = f.rule.domain_id;
        domain_ascii = domain;
        root_domain_ascii = f.root;
        local_part = local_part;
        local_part_canonical = canonical;
        address_canonical = canonical ++ 64 ∷ domain;
      }

  abbrev pub settle : Text → Text → Found → Option DomainMatch
  settle local_part domain f =
      let canonical = canonical_local f.rule local_part in
      when (permits f && valid_local_part u true canonical && fits canonical domain)
        (some (result local_part domain f))

  -- `match_address`
  unfoldable pub match_address : DomainMatcher → Text → Option DomainMatch
  unfolding parse_mailbox_address find_rule permits valid_local_part
  match_address m address = parse_mailbox_address u true address >>= λ parsed.
      find_rule m parsed.1 >>= settle parsed.0 parsed.1
