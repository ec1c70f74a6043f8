-- ===== src/Permissions/Delegation.antt =====
-- A key that app/auth/permissions.py finds within the acting principal gives nothing more away.
use rapid_inbox.Base.{
  not, Bool, has_char, ℕ, ◌≡◌, inl, inr, true, false, Option, none, some, List, [], ◌∷◌, arith, any,
  all, eqb, eqb_iff, Bool-cases, Option-cases, and-true, Text, text_eq, text_eq_iff,
}
use rapid_inbox.Base.Result.{ok}
use rapid_inbox.Permissions.Scopes.{has}
use rapid_inbox.Permissions.Fnmatch.{fnmatch}
use rapid_inbox.Permissions.Glob.{literal_pattern, mailbox_pattern_matches}
use rapid_inbox.Permissions.Context.{
  PermissionContext, mode_all, mode_selected, has_id, check_domain, check_mailbox,
  ensure_mailbox_access,
}
use rapid_inbox.Permissions.Within.{
  Networks, Target, effective_scopes, domains_are_within, pattern_is_within, mailboxes_are_within,
  delegated_policy_is_within, api_key_is_within_principal,
}

abbrev ids_or_none : Option (List ℕ) → List ℕ
ids_or_none none = []
ids_or_none (some ids) = ids

-- The grants that the new key will carry.
abbrev pub grants_of : Target → PermissionContext
grants_of target = record {
  scopes = target.scopes;
  domain_ids = ids_or_none target.domain_ids;
  mailbox_patterns = target.mailbox_patterns;
  domain_grant_mode = target.domain_grant_mode;
  api_key_id = none;
  public_id = [];
  name = [];
  kind = [];
  legacy_credential = false;
  rate_limit_per_min = 0;
  allowed_ip_cidrs = target.allowed_ip_cidrs;
  expires_at = target.expires_at;
  allow_header = target.allow_header;
  allow_query = target.allow_query;
  admin_id = none;
  admin_session_id = none;
}

-- The principal with the reads that its writes imply.
abbrev pub with_reads : PermissionContext → PermissionContext
with_reads principal = record principal { scopes = effective_scopes principal }

has-all :
    (x : Text) (xs ys : List Text)
    → all (λ s. has s ys) xs ≡ true
    → has x xs ≡ true
    → has x ys ≡ true
has-all x [] ys h k = cc
has-all x (y ∷ xs) ys h k = elim (Bool-cases (text_eq x y)) [
  | inl same ↦
      let e : x ≡ y = (text_eq_iff x y).0 same in
      rw e (and-true (has y ys) (all (λ s. has s ys) xs) h).0
  | inr other ↦
      has-all x xs ys (and-true (has y ys) (all (λ s. has s ys) xs) h).1 (ground (arith, k, other))
]

has_id-all :
    (k : ℕ) (ids allowed : List ℕ)
    → all (λ i. has_id i allowed) ids ≡ true
    → has_id k ids ≡ true
    → has_id k allowed ≡ true
has_id-all k [] allowed h e = cc
has_id-all k (i ∷ ids) allowed h e = elim (Bool-cases (eqb k i)) [
  | inl same ↦
      let is : k ≡ i = (eqb_iff k i).0 same in
      rw is (and-true (has_id i allowed) (all (λ j. has_id j allowed) ids) h).0
  | inr other ↦
      has_id-all k ids allowed (and-true (has_id i allowed) (all (λ j. has_id j allowed) ids) h).1
        (ground (arith, e, other))
]

check_domain-within :
    (principal : PermissionContext) (target : Target) (d : ℕ)
    → domains_are_within principal target ≡ true
    → check_domain (grants_of target) d ≡ ok tt
    → check_domain (with_reads principal) d ≡ ok tt
unfolding domains_are_within check_domain
check_domain-within principal target d h k = elim (Option-cases target.domain_ids) [
  | inl e ↦ ground arith
  | inr (ids, e) ↦ ground (
    arith,
    e,
    has_id-all d ids principal.domain_ids,
    has_id-all d ids [],
    text_eq_iff target.domain_grant_mode mode_all,
    text_eq_iff target.domain_grant_mode mode_selected,
  )
]

any-has :
    (m : Text) (p : Text) (parents : List Text)
    → has p parents ≡ true
    → fnmatch p m ≡ true
    → any (mailbox_pattern_matches m) parents ≡ true
unfolding mailbox_pattern_matches
any-has m p [] h k = cc
any-has m p (q ∷ parents) h k = elim (Bool-cases (text_eq p q)) [
  | inl same ↦
      let e : p ≡ q = (text_eq_iff p q).0 same in
      let fits : fnmatch q m ≡ true = rw (← e) k in rw fits
  | inr other ↦ ground (arith, any-has m p parents (ground (arith, h, other)) k)
]

-- No pattern has a "[".
abbrev pub bracket_free : List Text → Bool
bracket_free patterns = all (λ p. not (has_char 91 p)) patterns

-- A mailbox that a contained pattern matches is matched by one of the parents.
pattern-within :
    (m p : Text) (parents : List Text)
    → has_char 91 p ≡ false
    → pattern_is_within parents p ≡ true
    → fnmatch p m ≡ true
    → any (mailbox_pattern_matches m) parents ≡ true
unfolding pattern_is_within mailbox_pattern_matches
pattern-within m p parents plain h k = elim (Bool-cases (has p parents)) [
  | inl known ↦ any-has m p parents known k
  | inr other ↦
      let same : m ≡ p = literal_pattern p m plain (ground arith) (ground arith) k in
      rw same (ground arith)
]

patterns-within :
    (m : Text) (patterns parents : List Text)
    → bracket_free patterns ≡ true
    → all (pattern_is_within parents) patterns ≡ true
    → any (mailbox_pattern_matches m) patterns ≡ true
    → any (mailbox_pattern_matches m) parents ≡ true
patterns-within m [] parents plain h k = cc
patterns-within m (p ∷ patterns) parents plain h k =
    let (now, later) =
      and-true (pattern_is_within parents p) (all (pattern_is_within parents) patterns) h in
    elim (Bool-cases (mailbox_pattern_matches m p)) [
      | inl fits ↦
          pattern-within m p parents (ground arith) now (unfold mailbox_pattern_matches in fits)
      | inr misses ↦
          patterns-within m patterns parents (ground arith) later (ground (arith, k, misses))
    ]

check_mailbox-within :
    (patterns parents : List Text) (m : Text)
    → bracket_free patterns ≡ true
    → mailboxes_are_within parents patterns ≡ true
    → check_mailbox patterns m ≡ ok tt
    → check_mailbox parents m ≡ ok tt
unfolding mailboxes_are_within check_mailbox
check_mailbox-within patterns parents m plain h k =
    ground (arith, patterns-within m patterns parents plain)

within-parts :
    (lib : Networks) (principal : PermissionContext) (target : Target)
    → api_key_is_within_principal lib principal target ≡ true
    → (delegated_policy_is_within lib principal target ≡ true)
      × (all (λ s. has s (effective_scopes principal)) target.scopes ≡ true)
      × (domains_are_within principal target ≡ true)
      × (mailboxes_are_within principal.mailbox_patterns target.mailbox_patterns ≡ true)
unfolding api_key_is_within_principal
within-parts lib principal target h =
    let (abc, d) = and-true _ _ h in
    let (ab, c) = and-true _ _ abc in let (a, b) = and-true _ _ ab in (a, b, c, d)

-- A key found within the principal opens no mailbox that the principal cannot open: whatever
-- mailbox, domain and scope the new key is let through for, the principal is too, with the reads
-- that its write scopes imply. The condition is that no mailbox pattern of the new key has a "[",
-- as every key that is made.
pub ensure_mailbox_access-within :
    (lib : Networks) (principal : PermissionContext) (target : Target) (address : Text)
    (domain_id : ℕ) (scope : Text)
    → bracket_free target.mailbox_patterns ≡ true
    → api_key_is_within_principal lib principal target ≡ true
    → ensure_mailbox_access (grants_of target) address domain_id scope ≡ ok tt
    → ensure_mailbox_access (with_reads principal) address domain_id scope ≡ ok tt
unfolding ensure_mailbox_access
ensure_mailbox_access-within lib principal target address domain_id scope plain h k =
    let (_, scopes, domains, mailboxes) = within-parts lib principal target h in
    let wanted : has scope target.scopes ≡ true = ground (arith, k) in
    let held = has-all scope target.scopes (effective_scopes principal) scopes wanted in
    let domain : check_domain (grants_of target) domain_id ≡ ok tt = ground (arith, k, wanted) in
    let mailbox : check_mailbox target.mailbox_patterns address ≡ ok tt =
      ground (arith, k, wanted, domain) in
    let domain' = check_domain-within principal target domain_id domains domain in
    let mailbox' =
      check_mailbox-within target.mailbox_patterns principal.mailbox_patterns address plain
        mailboxes mailbox in
    rw held (elim (Bool-cases principal.legacy_credential) [
      | inl legacy ↦ rw legacy
      | inr new ↦ rw (new, domain') mailbox'
    ])
