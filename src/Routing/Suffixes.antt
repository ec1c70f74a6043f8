-- ===== src/Routing/Suffixes.antt =====
-- The search for a domain's rule in app/smtp/matcher.py, and how the matcher is filled.
use rapid_inbox.Base.{
  ℕ, ◌≤◌, ◌<◌, ◌≢◌, ◌≡◌, refl, ap, ◌⊎◌, inl, inr, false, Option, none, some, List, [], ◌∷◌, arith,
  length, eqb, if◌then◌else◌, eqb_iff, Bool-cases, Option-cases, Text, text_eq, text_eq_iff,
}
use rapid_inbox.Routing.Address.{Unicode, star, normalize_domain}
use rapid_inbox.Routing.Parsing.{bind-eq-some}
use rapid_inbox.Routing.Matcher.{
  DomainRule, DomainMatcher, get_rule, set_default, add_rule, empty_matcher, find_suffix, build,
}

-- `r` is what stands after one of the dots of the domain.
abbrev pub IsDotSuffix : Text → Text → Type 0
IsDotSuffix r [] = ⊥
IsDotSuffix r (c ∷ s) = (c ≡ 46) × (r ≡ s) ⊎ IsDotSuffix r s

length-IsDotSuffix : (r d : Text) → IsDotSuffix r d → length r < length d
length-IsDotSuffix r [] h = absurd h
length-IsDotSuffix r (c ∷ s) (inl (_, e)) = omega (arith, ap (length {0}) e)
length-IsDotSuffix r (c ∷ s) (inr h) = omega (arith, length-IsDotSuffix r s h)

longest_here : (r : Text) (c : ℕ) (s : Text) → IsDotSuffix r (c ∷ s) → length r ≤ length s
longest_here r c s h = omega (arith, length-IsDotSuffix r (c ∷ s) h)

abbrev pub IsFree : List (Text × DomainRule) → Text → Type 0
IsFree rules d = (r : Text) → IsDotSuffix r d → get_rule r rules ≡ none

abbrev pub IsLongest : List (Text × DomainRule) → Text → Text → Type 0
IsLongest rules d root =
    (r : Text) → IsDotSuffix r d → get_rule r rules ≢ none → length r ≤ length root

abbrev pub SuffixResult : List (Text × DomainRule) → Text → Option (Text × DomainRule) → Type 0
SuffixResult rules d none = IsFree rules d
SuffixResult rules d (some (root, rule)) =
    IsDotSuffix root d × (get_rule root rules ≡ some rule) × IsLongest rules d root

-- A dot that starts no configured root, or a character that is no dot, changes nothing.
skip-IsFree :
    (rules : List (Text × DomainRule)) (c : ℕ) (s : Text)
    → ((c ≢ 46) ⊎ (get_rule s rules ≡ none))
    → (r : Text) → IsDotSuffix r (c ∷ s)
    → get_rule r rules ≢ none
    → IsDotSuffix r s
skip-IsFree rules c s (inl other) r (inl (dot, e)) known = absurd (other dot)
skip-IsFree rules c s (inr free) r (inl (dot, e)) known = absurd (known (rw e free))
skip-IsFree rules c s skip r (inr h) known = h

none_of_not :
    (rules : List (Text × DomainRule)) (r : Text)
    → ¬ (get_rule r rules ≢ none)
    → get_rule r rules ≡ none
none_of_not rules r h = elim (Option-cases (get_rule r rules)) [
  | inl e ↦ e
  | inr (rule, e) ↦ absurd (h (λ f. cc))
]

skip-SuffixResult :
    (rules : List (Text × DomainRule)) (c : ℕ) (s : Text) (o : Option (Text × DomainRule))
    → ((c ≢ 46) ⊎ (get_rule s rules ≡ none))
    → SuffixResult rules s o
    → SuffixResult rules (c ∷ s) o
skip-SuffixResult rules c s none skip free =
    λ r h. none_of_not rules r (λ known. known (free r (skip-IsFree rules c s skip r h known)))
skip-SuffixResult rules c s (some (root, rule)) skip (suffix, found, longest) =
    (inr suffix, found, λ r h known. longest r (skip-IsFree rules c s skip r h known) known)

-- The walk over the dots of a domain returns the longest configured root among its dot suffixes,
-- with its rule; it returns nothing only if none of them is configured.
pub find_suffix_lem :
    (rules : List (Text × DomainRule)) (d : Text) → SuffixResult rules d (find_suffix rules d)
unfolding find_suffix
find_suffix_lem rules [] = λ r h. absurd h
find_suffix_lem rules (c ∷ s) = elim (Bool-cases (eqb c 46)) [
  | inl dot ↦ elim (Option-cases (get_rule s rules)) [
    | inl free ↦
        rw (dot, free)
          (skip-SuffixResult rules c s (find_suffix rules s) (inr free) (find_suffix_lem rules s))
    | inr (rule, found) ↦
        rw (dot, found) (inl ((eqb_iff c 46).0 dot, refl), found, λ r h known. longest_here r c s h)
  ]
  | inr other ↦ rw other (
      skip-SuffixResult rules c s (find_suffix rules s) (inl (ground arith))
        (find_suffix_lem rules s))
]

-- The first rule whose root normalises to the given one.
unfoldable pub first_rule : Unicode → Text → List DomainRule → Option DomainRule
first_rule u root [] = none
first_rule u root (rule ∷ rules) =
    let rest = first_rule u root rules in
    elim (normalize_domain u rule.root_domain_ascii) [
      | none ↦ rest
      | some r ↦ if text_eq r root then some rule else rest
    ]

abbrev or_else : Option DomainRule → Option DomainRule → Option DomainRule
or_else none o = o
or_else (some r) o = some r

get_rule-set_default :
    (root k : Text) (rule : DomainRule) (rules : List (Text × DomainRule))
    → get_rule k (set_default root rule rules)
      ≡ or_else (get_rule k rules) (if text_eq root k then some rule else none)
unfolding get_rule set_default
get_rule-set_default root k rule [] = refl
get_rule-set_default root k rule ((j, old) ∷ rules) = ground (
  arith,
  get_rule-set_default root k rule rules,
  text_eq_iff j root,
  text_eq_iff j k,
  text_eq_iff root k,
)

build-rules :
    (u : Unicode) (rules : List DomainRule) (m r : DomainMatcher) (k : Text)
    → build u rules m ≡ some r
    → text_eq k star ≡ false
    → get_rule k r.rules_by_root ≡ or_else (get_rule k m.rules_by_root) (first_rule u k rules)
unfolding build first_rule
build-rules u [] m r k h p = ground arith
build-rules u (rule ∷ rules) m r k h p =
    let (root, e, rest) = bind-eq-some (normalize_domain u rule.root_domain_ascii) _ h in
    let ih = build-rules u rules (add_rule rule root m) r k rest p in
    rw (e, first_rule)
      (unfold add_rule in
        ground (
          arith,
          ih,
          get_rule-set_default root k rule m.rules_by_root,
          text_eq_iff root k,
          text_eq_iff root star,
          text_eq_iff k star,
        ))

build-catch_all :
    (u : Unicode) (rules : List DomainRule) (m r : DomainMatcher)
    → build u rules m ≡ some r
    → r.catch_all_rule ≡ or_else m.catch_all_rule (first_rule u star rules)
unfolding build first_rule
build-catch_all u [] m r h = ground arith
build-catch_all u (rule ∷ rules) m r h =
    let (root, e, rest) = bind-eq-some (normalize_domain u rule.root_domain_ascii) _ h in
    let ih = build-catch_all u rules (add_rule rule root m) r rest in
    rw (e, first_rule) (unfold add_rule in ground (arith, ih))

-- A matcher built from a list of rules answers, for each root and for the wildcard, with the
-- first rule of the list whose own root normalises to it: later duplicates are ignored.
pub build-first_rule :
    (u : Unicode) (rules : List DomainRule) (m : DomainMatcher) (root : Text)
    → build u rules empty_matcher ≡ some m
    → root ≢ star
    → (get_rule root m.rules_by_root ≡ first_rule u root rules)
      × (m.catch_all_rule ≡ first_rule u star rules)
unfolding get_rule
build-first_rule u rules m root h p = (
  build-rules u rules empty_matcher m root h (ground (arith, text_eq_iff root star)),
  build-catch_all u rules empty_matcher m h,
)
