-- ===== src/Routing/Tests.antt =====
-- Runs of the address parser and the matcher, and their theorems at concrete inputs.
use rapid_inbox.Base.{
  text_eq_iff, arith, ℕ, ◌+◌, ◌≤◌, ◌<◌, ◌≡◌, refl, ◌≢◌, ◌⊎◌, true, false, ◌&&◌, none, some, List,
  [], ◌∷◌, ◌++◌, length, all, ltb, leb, if◌then◌else◌, Text, codes, has_char, before, after,
  utf8_length,
}
use rapid_inbox.Routing.Address.{Unicode, star, normalize_domain, parse_mailbox_address}
use rapid_inbox.Routing.Matcher.{
  DomainRule, DomainMatch, DomainMatcher, get_rule, set_default, add_rule, empty_matcher,
  find_suffix, Found, find_rule, permits, build, match_address,
}
use rapid_inbox.Routing.Valid.{IsDomain}
use mathlib.Core.List.{map}
use rapid_inbox.Routing.Parsing.{parse_mailbox_address_parts}
use rapid_inbox.Routing.Suffixes.{SuffixResult, first_rule, find_suffix_lem, build-first_rule}
use rapid_inbox.Routing.Matching.{Serves, match_address-Serves, match_address_canonical}

machine : Unit {0}
unfolding match_address build find_rule find_suffix permits get_rule add_rule set_default
    parse_mailbox_address utf8_length normalize_domain first_rule
machine = tt

abbrev lower_char : ℕ → ℕ
lower_char c = if leb 65 c && leb c 90 then c + 32 else c

-- Python's tables on ASCII: enough for the addresses below.
abbrev ascii : Unicode
ascii = record {
  lower = map lower_char;
  is_space = λ c. leb c 32;
  is_other = λ c. false;
  idna = λ s. if all (λ c. ltb c 128) s then some s else none;
}

abbrev example_rule : DomainRule
example_rule = record {
  domain_id = 1;
  root_domain_ascii = codes "Example.com";
  accept_exact = true;
  accept_subdomains = true;
  plus_addressing_mode = codes "strip";
  local_part_case_sensitive = false;
}

abbrev mail_rule : DomainRule
mail_rule = record example_rule { domain_id = 2; root_domain_ascii = codes "mail.example.com" }

abbrev duplicate_rule : DomainRule
duplicate_rule = record example_rule { domain_id = 3; root_domain_ascii = codes "example.com." }

abbrev rules : List DomainRule
rules = example_rule ∷ mail_rule ∷ duplicate_rule ∷ []

abbrev matcher : DomainMatcher
matcher = record {
  rules_by_root = (codes "example.com", example_rule) ∷ (codes "mail.example.com", mail_rule) ∷ [];
  catch_all_rule = none;
}

built : build ascii rules empty_matcher ≡ some matcher
unfolding machine
built = refl

abbrev address : Text
address = codes "Bob+x@eu.mail.Example.com"

abbrev hit : DomainMatch
hit = record {
  domain_id = 2;
  domain_ascii = codes "eu.mail.example.com";
  root_domain_ascii = codes "mail.example.com";
  local_part = codes "Bob+x";
  local_part_canonical = codes "bob";
  address_canonical = codes "bob@eu.mail.example.com";
}

matched : match_address ascii matcher address ≡ some hit
unfolding machine
matched = refl

parsed :
    parse_mailbox_address ascii true address ≡ some (codes "Bob+x", codes "eu.mail.example.com")
unfolding machine
parsed = refl

rejected_addresses :
    (parse_mailbox_address ascii true (codes "a..b@x.y") ≡ none)
    × (parse_mailbox_address ascii true (codes "a@b@x.y") ≡ none)
    × (parse_mailbox_address ascii true (codes "a@-x.y") ≡ none)
    × (parse_mailbox_address ascii true (codes "a@*") ≡ none)
unfolding machine
rejected_addresses = (refl, refl, refl, refl)

parse_mailbox_address_parts_example :
    (raw : Text) × (n : ℕ) × (address ≡ codes "Bob+x" ++ 64 ∷ raw)
    × (normalize_domain ascii raw ≡ some (codes "eu.mail.example.com"))
    × (utf8_length (codes "Bob+x") ≡ some n)
    × (0 < n)
    × (n ≤ 64)
    × (n + 1 + length (codes "eu.mail.example.com") ≤ 254)
    × IsDomain (codes "eu.mail.example.com")
    × (has_char 64 (codes "Bob+x") ≡ false)
    × (has_char 64 (codes "eu.mail.example.com") ≡ false)
parse_mailbox_address_parts_example =
    parse_mailbox_address_parts ascii true address (codes "Bob+x") (codes "eu.mail.example.com")
      parsed

find_suffix_lem_example :
    SuffixResult matcher.rules_by_root
      (codes "eu.mail.example.com")
      (find_suffix matcher.rules_by_root (codes "eu.mail.example.com"))
find_suffix_lem_example = find_suffix_lem matcher.rules_by_root (codes "eu.mail.example.com")

not_star : codes "example.com" ≢ star
not_star e = ground (arith, text_eq_iff (codes "example.com") star)

build-first_rule_example :
    (get_rule (codes "example.com") matcher.rules_by_root
      ≡ first_rule ascii (codes "example.com") rules)
    × (matcher.catch_all_rule ≡ first_rule ascii star rules)
build-first_rule_example = build-first_rule ascii rules matcher (codes "example.com") built not_star

match_address-Serves_example :
    (f : Found) × (parse_mailbox_address ascii true address
      ≡ some (hit.local_part, hit.domain_ascii))
    × Serves matcher hit.domain_ascii f
    × (hit.root_domain_ascii ≡ f.root)
    × (hit.domain_id ≡ f.rule.domain_id)
    × ((f.root ≡ star)
        ⊎ (f.is_exact ≡ true) × (f.rule.accept_exact ≡ true)
        ⊎ (f.is_exact ≡ false) × (f.rule.accept_subdomains ≡ true))
match_address-Serves_example = match_address-Serves ascii matcher address hit matched

match_address_canonical_example :
    (n : ℕ) × (utf8_length hit.local_part_canonical ≡ some n)
    × (0 < n)
    × (n ≤ 64)
    × (n + 1 + length hit.domain_ascii ≤ 254)
    × (before 64 hit.address_canonical ≡ hit.local_part_canonical)
    × (after 64 hit.address_canonical ≡ hit.domain_ascii)
    × (has_char 64 hit.domain_ascii ≡ false)
match_address_canonical_example = match_address_canonical ascii matcher address hit matched
