-- ===== src/ApiKeys/Rate.antt =====
-- The rate that the token bucket of app/auth/api_keys.py keeps.
use rapid_inbox.Base.{
  sym, subst, inr, inl, ℕ, zero, suc, ◌+◌, ◌-◌, ◌*◌, ◌≤◌, ◌<◌, ◌≡◌, Bool, true, false, Option, none,
  some, List, [], ◌∷◌, ltb, if◌then◌else◌, Bool-cases, arith, refl,
}
use rapid_inbox.ApiKeys.Usage.{Bucket, refilled, take_token}

-- How many of the uses at these times are let through, and the bucket after them.
unfoldable pub uses : (minute rate : ℕ) → List ℕ → Bucket → ℕ × Bucket
unfolding take_token
uses minute rate [] b = (0, b)
uses minute rate (now ∷ times) b =
    let taken = take_token minute rate now (some b) in
    let rest = uses minute rate times taken.1 in ((if taken.0 then suc rest.0 else rest.0), rest.1)

-- Times that do not go back.
abbrev pub Ascends : ℕ → List ℕ → Type 0
Ascends low [] = Unit
Ascends low (t ∷ times) = (low ≤ t) × Ascends t times

abbrev granted : Bool → ℕ
granted true = 1
granted false = 0

take_token-balance :
    (minute rate now : ℕ) (b : Bucket)
    → (take_token minute rate now (some b)).1.tokens
        + granted (take_token minute rate now (some b)).0 * minute
      ≤ b.tokens + (now - b.last_refill) * rate
unfolding take_token
take_token-balance minute rate now b =
    elim (Bool-cases (ltb (refilled minute rate now (some b)) minute)) [
      | inl few ↦ rw few (omega arith)
      | inr enough ↦ rw enough (ground arith)
    ]

-- The refills of two stretches add up.
stretches : (rate a b c : ℕ) → a ≤ b → b ≤ c → (b - a) * rate + (c - b) * rate ≡ (c - a) * rate
stretches rate a b c h k = grind arith

take_token-last :
    (minute rate now : ℕ) (b : Option Bucket) → (take_token minute rate now b).1.last_refill ≡ now
unfolding take_token
take_token-last minute rate now b = ground arith

take_token-tokens :
    (minute rate now : ℕ) (b : Option Bucket)
    → (take_token minute rate now b).1.tokens ≤ rate * minute
unfolding take_token
take_token-tokens minute rate now none = ground arith
take_token-tokens minute rate now (some b) = ground arith

one_more :
    (x : Bool) (n minute : ℕ) → (if x then suc n else n) * minute ≡ n * minute + granted x * minute
one_more true n minute = grind arith
one_more false n minute = grind arith

uses-balance :
    (minute rate : ℕ) (times : List ℕ) (b : Bucket)
    → Ascends b.last_refill times
    → (b.last_refill ≤ (uses minute rate times b).1.last_refill)
      × ((uses minute rate times b).1.tokens + (uses minute rate times b).0 * minute
          ≤ b.tokens + ((uses minute rate times b).1.last_refill - b.last_refill) * rate)
unfolding uses
uses-balance minute rate [] b h = (omega arith, omega arith)
uses-balance minute rate (t ∷ times) b (le, h) =
    let taken = take_token minute rate t (some b) in
    let rest = uses minute rate times taken.1 in
    let e = take_token-last minute rate t (some b) in
    let (later, sum) =
      subst
        (λ x.
          (x ≤ rest.1.last_refill)
          × (rest.1.tokens + rest.0 * minute ≤ taken.1.tokens + (rest.1.last_refill - x) * rate))
        e (uses-balance minute rate times taken.1 (subst (λ x. Ascends x times) (sym e) h)) in
    (
      omega arith,
      omega (
        arith,
        take_token-balance minute rate t b,
        stretches rate b.last_refill t rest.1.last_refill le later,
        one_more taken.0 rest.0 minute,
      ),
    )

uses-tokens :
    (minute rate : ℕ) (times : List ℕ) (b : Bucket)
    → b.tokens ≤ rate * minute
    → (uses minute rate times b).1.tokens ≤ rate * minute
unfolding uses
uses-tokens minute rate [] b h = h
uses-tokens minute rate (t ∷ times) b h =
    uses-tokens minute rate times (take_token minute rate t (some b)).1
      (take_token-tokens minute rate t (some b))

-- From a bucket that holds at most the rate, at times that do not go back: the bucket never holds
-- more, and the uses let through are at most the rate and what is refilled until the last use.
pub uses_bounded :
    (minute rate : ℕ) (times : List ℕ) (b : Bucket)
    → b.tokens ≤ rate * minute
    → Ascends b.last_refill times
    → ((uses minute rate times b).1.tokens ≤ rate * minute)
      × ((uses minute rate times b).0 * minute
          ≤ rate * minute + ((uses minute rate times b).1.last_refill - b.last_refill) * rate)
uses_bounded minute rate times b h a =
    let (_, sum) = uses-balance minute rate times b a in
    (uses-tokens minute rate times b h, omega arith)

times_grows : (minute rate : ℕ) → 0 < rate → minute ≤ rate * minute
times_grows minute (suc rate) h = grind arith
times_grows minute zero h = elim h [ ]

waits : (minute rate elapsed : ℕ) → 0 < rate → minute ≤ elapsed → minute ≤ elapsed * rate
waits minute (suc rate) elapsed h k = grind arith
waits minute zero elapsed h k = elim h [ ]

-- A key without a bucket has a full one.
take_token-fresh :
    (minute rate now : ℕ)
    → take_token minute rate now none
      ≡ take_token minute rate now (some (record { tokens = rate * minute; last_refill = now }))
unfolding take_token
take_token-fresh minute rate now =
    let full : refilled minute rate now
          (some (record { tokens = rate * minute; last_refill = now }))
        ≡ rate * minute =
      grind arith in
    rw full refl

-- A minute after its last use a key with a rate is let through.
take_token-after_minute :
    (minute rate now : ℕ) (b : Bucket)
    → 0 < rate
    → b.last_refill + minute ≤ now
    → (take_token minute rate now (some b)).0 ≡ true
unfolding take_token
take_token-after_minute minute rate now b n h =
    let full : minute ≤ rate * minute = times_grows minute rate n in
    let waited : minute ≤ (now - b.last_refill) * rate =
      waits minute rate (now - b.last_refill) n (omega arith) in
    ground (arith, full, waited)
