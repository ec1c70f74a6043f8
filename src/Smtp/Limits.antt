-- ===== src/Smtp/Limits.antt =====
-- The size limit of a message: the loop of app/smtp/handler.py that looks at each domain once.
use rapid_inbox.Smtp.Handler.{
  limit_round, has_id, lower_to, limit_loop, effective_message_size_limit,
}
use rapid_inbox.Base.{
  Text, ℕ, ◌≤◌, ◌≡◌, refl, ap, ◌∙◌, inl, inr, Bool, true, false, ◌&&◌, Option, none, some, List, [],
  ◌∷◌, arith, all, leb, eqb, eqb_iff, Bool-cases,
}
use rapid_inbox.Smtp.Session.{Rules}

-- The answers for the addresses of one domain agree on its limit.
abbrev pub Agrees : Rules → Type 0
Agrees rules =
    (a b : Text) (k : ℕ) (l m : Option ℕ)
    → rules.match_with_limit a ≡ some (k, l)
    → rules.match_with_limit b ≡ some (k, m)
    → l ≡ m

-- A content of `n` bytes is within the limit of an address's domain, if that has one.
abbrev pub fits_domain : ℕ → Option (ℕ × Option ℕ) → Bool
fits_domain n none = true
fits_domain n (some (_, none)) = true
fits_domain n (some (_, some limit)) = leb n limit

abbrev fits_limit : ℕ → Option ℕ → Bool
fits_limit n none = true
fits_limit n (some limit) = leb n limit

-- The limit is already no more than that of each domain seen.
abbrev Covers : Rules → ℕ → List ℕ → Type 0
Covers rules limit seen =
    (a : Text) (k l : ℕ)
    → rules.match_with_limit a ≡ some (k, some l)
    → has_id k seen ≡ true
    → limit ≤ l

fits-lower_to :
    (n limit : ℕ) (l : Option ℕ) → leb n (lower_to limit l) ≡ (leb n limit && fits_limit n l)
fits-lower_to n limit none = ground arith
fits-lower_to n limit (some l) = ground arith

and_absorb : (a b others : Bool) → a ≡ (a && b) → (a && others) ≡ (a && (b && others))
and_absorb true true others h = refl
and_absorb true false others h = cc
and_absorb false b others h = refl

and_lower : (m a b others : Bool) → m ≡ (a && b) → (m && others) ≡ (a && (b && others))
and_lower m true b others h = ap (λ x. x && others) h
and_lower m false b others h = ap (λ x. x && others) h

fits-some : (n k : ℕ) (l : Option ℕ) → fits_domain n (some (k, l)) ≡ fits_limit n l
fits-some n k none = refl
fits-some n k (some l) = refl

fits-covered :
    (rules : Rules) (n limit : ℕ) (seen : List ℕ) (a : Text) (k : ℕ) (l : Option ℕ)
    → Covers rules limit seen
    → rules.match_with_limit a ≡ some (k, l)
    → has_id k seen ≡ true
    → leb n limit ≡ (leb n limit && fits_limit n l)
fits-covered rules n limit seen a k none c e h = ground arith
fits-covered rules n limit seen a k (some l) c e h =
    let le : limit ≤ l = c a k l e h in ground arith

lower_le : (limit : ℕ) (l : Option ℕ) (m : ℕ) → l ≡ some m → lower_to limit l ≤ m
lower_le limit none m e = cc
lower_le limit (some l) m e = let same : l ≡ m = ground arith in ground arith

lower_le_limit : (limit : ℕ) (l : Option ℕ) → lower_to limit l ≤ limit
lower_le_limit limit none = omega arith
lower_le_limit limit (some l) = omega arith

Covers-lower :
    (rules : Rules) (limit : ℕ) (seen : List ℕ) (a : Text) (k : ℕ) (l : Option ℕ)
    → Agrees rules
    → Covers rules limit seen
    → rules.match_with_limit a ≡ some (k, l)
    → Covers rules (lower_to limit l) (k ∷ seen)
Covers-lower rules limit seen a k l agrees c e b j m f h = elim (Bool-cases (eqb j k)) [
  | inl same ↦
      let is : j ≡ k = (eqb_iff j k).0 same in
      let f' : rules.match_with_limit b ≡ some (k, some m) = rw is at f in
      lower_le limit l m (agrees a b k l (some m) e f')
  | inr other ↦
      let old : limit ≤ m = c b j m f (ground (arith, h, other)) in
      omega (arith, old, lower_le_limit limit l)
]

-- One round, whatever the address is matched with.
limit_round-fits :
    (rules : Rules) (n : ℕ) (a : Text) (match : Option (ℕ × Option ℕ)) (others : Bool)
    (rest : ℕ → List ℕ → ℕ) (limit : ℕ) (seen : List ℕ)
    → Agrees rules
    → Covers rules limit seen
    → rules.match_with_limit a ≡ match
    → ((m : ℕ) (ids : List ℕ) → Covers rules m ids → leb n (rest m ids) ≡ (leb n m && others))
    → leb n (limit_round match rest limit seen) ≡ (leb n limit && (fits_domain n match && others))
limit_round-fits rules n a none others rest limit seen agrees c e h = h limit seen c
limit_round-fits rules n a (some (k, l)) others rest limit seen agrees c e h =
    let fits = fits-some n k l in
    elim (Bool-cases (has_id k seen)) [
      | inl known ↦
          let same = h limit seen c in
          let below = fits-covered rules n limit seen a k l c e known in
          rw (known, fits) (same ∙ and_absorb (leb n limit) (fits_limit n l) others below)
      | inr new ↦
          let lower =
            h (lower_to limit l) (k ∷ seen) (Covers-lower rules limit seen a k l agrees c e) in
          rw (new, fits)
            (lower ∙ and_lower _ (leb n limit) (fits_limit n l) others (fits-lower_to n limit l))
    ]

limit_loop-fits :
    (rules : Rules) (n : ℕ) (rcpt_tos : List Text) (limit : ℕ) (seen : List ℕ)
    → Agrees rules
    → Covers rules limit seen
    → leb n (limit_loop rules rcpt_tos limit seen)
      ≡ (leb n limit && all (λ a. fits_domain n (rules.match_with_limit a)) rcpt_tos)
unfolding limit_loop
limit_loop-fits rules n [] limit seen agrees c = ground arith
limit_loop-fits rules n (a ∷ rcpt_tos) limit seen agrees c =
    limit_round-fits rules n a (rules.match_with_limit a)
      (all (λ b. fits_domain n (rules.match_with_limit b)) rcpt_tos) (limit_loop rules rcpt_tos)
      limit seen agrees c refl (λ m ids d. limit_loop-fits rules n rcpt_tos m ids agrees d)

-- Where the addresses of one domain agree on its limit, a content is within the effective limit
-- exactly when it is within the global one and within that of every recipient's domain, although
-- the loop looks at a domain only once.
pub effective_message_size_limit_exact :
    (rules : Rules) (n : ℕ) (rcpt_tos : List Text)
    → Agrees rules
    → leb n (effective_message_size_limit rules rcpt_tos) ≡ (
        leb n rules.max_message_size_bytes
        && all (λ a. fits_domain n (rules.match_with_limit a)) rcpt_tos)
unfolding effective_message_size_limit
effective_message_size_limit_exact rules n rcpt_tos agrees =
    limit_loop-fits rules n rcpt_tos rules.max_message_size_bytes [] agrees (λ a k l e h. cc)
