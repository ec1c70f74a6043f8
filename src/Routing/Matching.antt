-- ===== src/Routing/Matching.antt =====
-- What a match of `DomainMatcher.match_address` in app/smtp/matcher.py tells.
use rapid_inbox.Base.{
  ℕ, ◌+◌, ◌≤◌, ◌<◌, ◌≡◌, refl, subst, ◌⊎◌, inl, inr, true, false, Option, none, some, arith, length,
  and-true, some_eq, Text, text_eq_iff, has_char, before, after, utf8_length,
}
use rapid_inbox.Routing.Address.{Unicode, star, parse_mailbox_address}
use rapid_inbox.Routing.Matcher.{
  DomainRule, DomainMatch, DomainMatcher, get_rule, find_suffix, Found, find_rule, permits,
  canonical_local, match_address, result, settle, suffix_or_catch_all, exact_or,
}
use rapid_inbox.Routing.Valid.{
  has_char-valid_local_part, bytes-valid_local_part, before-append, after-append,
}
use rapid_inbox.Routing.Parsing.{fits-le, bind-eq-some, when-eq-some, parse_mailbox_address_parts}
use rapid_inbox.Routing.Suffixes.{IsFree, SuffixResult, find_suffix_lem}

-- The rule that must serve a domain: its own; or that of its longest configured dot suffix; or, if
-- there is neither, the wildcard's.
abbrev pub Serves : DomainMatcher → Text → Found → Type 0
Serves m d f =
    (f.root ≡ d) × (f.is_exact ≡ true) × (get_rule d m.rules_by_root ≡ some f.rule)
    ⊎ (f.is_exact ≡ false)
      × (get_rule d m.rules_by_root ≡ none)
      × SuffixResult m.rules_by_root d (some (f.root, f.rule))
    ⊎ (f.root ≡ star)
      × (f.is_exact ≡ true)
      × (get_rule d m.rules_by_root ≡ none)
      × IsFree m.rules_by_root d
      × (m.catch_all_rule ≡ some f.rule)

Serves-exact_or :
    (m : DomainMatcher) (d : Text) (f : Found) (own : Option DomainRule)
    (o : Option (Text × DomainRule)) (c : Option DomainRule)
    → get_rule d m.rules_by_root ≡ own
    → SuffixResult m.rules_by_root d o
    → m.catch_all_rule ≡ c
    → exact_or d own (suffix_or_catch_all o c) ≡ some f
    → Serves m d f
Serves-exact_or m d f (some rule) o c e s k h = inl (ground arith, ground arith, ground arith)
Serves-exact_or m d f none (some (root, rule)) c e s k h =
    let same : record { root = root; rule = rule; is_exact = false } ≡ f = some_eq h in
    subst (Serves m d) same (inr (inl (refl, e, s)))
Serves-exact_or m d f none none (some rule) e s k h =
    let same : record { root = star; rule = rule; is_exact = true } ≡ f = some_eq h in
    subst (Serves m d) same (inr (inr (refl, refl, e, s, k)))
Serves-exact_or m d f none none none e s k h = cc

-- The rule found for a domain is the one that must serve it.
pub find_rule-Serves :
    (m : DomainMatcher) (d : Text) (f : Found) → find_rule m d ≡ some f → Serves m d f
unfolding find_rule
find_rule-Serves m d f h =
    Serves-exact_or m d f (get_rule d m.rules_by_root) (find_suffix m.rules_by_root d)
      m.catch_all_rule refl (find_suffix_lem m.rules_by_root d) refl h

-- A match is of a well-formed address, by the rule that must serve its domain (its own, else that
-- of its longest configured dot suffix, else the wildcard's), and that rule accepts it: an exact
-- domain wants accept_exact, a subdomain accept_subdomains, the wildcard nothing.
pub match_address-Serves :
    (u : Unicode) (m : DomainMatcher) (address : Text) (r : DomainMatch)
    → match_address u m address ≡ some r
    → (f : Found) × (parse_mailbox_address u true address ≡ some (r.local_part, r.domain_ascii))
      × Serves m r.domain_ascii f
      × (r.root_domain_ascii ≡ f.root)
      × (r.domain_id ≡ f.rule.domain_id)
      × ((f.root ≡ star)
          ⊎ (f.is_exact ≡ true) × (f.rule.accept_exact ≡ true)
          ⊎ (f.is_exact ≡ false) × (f.rule.accept_subdomains ≡ true))
unfolding match_address
match_address-Serves u m address r h =
    let ((l, d), parsed, h2) = bind-eq-some (parse_mailbox_address u true address) _ h in
    let (f, found, h3) = bind-eq-some (find_rule m d) (settle u l d) h2 in
    let (tests, same) = when-eq-some _ (some (result u l d f)) h3 in
    let gate = (and-true _ _ (and-true _ _ tests).0).0 in
    subst
      (λ x.
        (g : Found) × (parse_mailbox_address u true address ≡ some (x.local_part, x.domain_ascii))
        × Serves m x.domain_ascii g
        × (x.root_domain_ascii ≡ g.root)
        × (x.domain_id ≡ g.rule.domain_id)
        × ((g.root ≡ star)
            ⊎ (g.is_exact ≡ true) × (g.rule.accept_exact ≡ true)
            ⊎ (g.is_exact ≡ false) × (g.rule.accept_subdomains ≡ true)))
      (some_eq same) (f, parsed, find_rule-Serves m d f found, refl, refl, gate_cases f gate)
  where
    gate_cases :
        (f : Found)
        → permits f ≡ true
        → (f.root ≡ star)
          ⊎ (f.is_exact ≡ true) × (f.rule.accept_exact ≡ true)
          ⊎ (f.is_exact ≡ false) × (f.rule.accept_subdomains ≡ true)
    gate_cases f h = unfold permits in ground (arith, text_eq_iff f.root star)

-- The canonical address of a match is within 254 bytes, and splits at its first "@" into the
-- canonical local part, of 1 to 64 bytes, and the domain, which holds no "@".
pub match_address_canonical :
    (u : Unicode) (m : DomainMatcher) (address : Text) (r : DomainMatch)
    → match_address u m address ≡ some r
    → (n : ℕ) × (utf8_length r.local_part_canonical ≡ some n)
      × (0 < n)
      × (n ≤ 64)
      × (n + 1 + length r.domain_ascii ≤ 254)
      × (before 64 r.address_canonical ≡ r.local_part_canonical)
      × (after 64 r.address_canonical ≡ r.domain_ascii)
      × (has_char 64 r.domain_ascii ≡ false)
unfolding match_address
match_address_canonical u m address r h =
    let ((l, d), parsed, h2) = bind-eq-some (parse_mailbox_address u true address) _ h in
    let (f, found, h3) = bind-eq-some (find_rule m d) (settle u l d) h2 in
    let (tests, same) = when-eq-some _ (some (result u l d f)) h3 in
    let (both, room) = and-true _ _ tests in
    let (_, valid) = and-true _ _ both in
    let canonical = canonical_local u f.rule l in
    let (n, width, positive, short) = bytes-valid_local_part u true canonical valid in
    let clean = has_char-valid_local_part u true canonical valid in
    let parts = parse_mailbox_address_parts u true address l d parsed in
    subst
      (λ x.
        (k : ℕ) × (utf8_length x.local_part_canonical ≡ some k)
        × (0 < k)
        × (k ≤ 64)
        × (k + 1 + length x.domain_ascii ≤ 254)
        × (before 64 x.address_canonical ≡ x.local_part_canonical)
        × (after 64 x.address_canonical ≡ x.domain_ascii)
        × (has_char 64 x.domain_ascii ≡ false))
      (some_eq same)
      (
        n,
        width,
        positive,
        short,
        fits-le canonical d n width room,
        before-append 64 canonical d clean,
        after-append 64 canonical d clean,
        parts.10,
      )
