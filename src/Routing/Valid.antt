-- ===== src/Routing/Valid.antt =====
-- What a domain name and a local part that pass the tests of app/smtp/matcher.py look like.
use rapid_inbox.Base.{
  ℕ, ◌≤◌, ◌<◌, ◌≡◌, refl, ◌⊎◌, inl, inr, Bool, true, false, some, List, [], ◌∷◌, ◌++◌, arith,
  length, all, All, eqb, eqb_iff, Bool-cases, Option-cases, and-true, Text, has_char, count_char,
  starts_with_char, ends_with_char, split_on, before, after, utf8_length, onto_first,
}
use rapid_inbox.Routing.Address.{
  Unicode, is_alnum, is_label_char, valid_label, valid_ascii_domain, valid_local_char,
  valid_local_part,
}

-- A letter, a digit or a hyphen, all ASCII.
abbrev pub IsLabelChar : ℕ → Type 0
IsLabelChar c = ((48 ≤ c) × (c ≤ 57)) ⊎ ((65 ≤ c) × (c ≤ 90)) ⊎ ((97 ≤ c) × (c ≤ 122)) ⊎ (c ≡ 45)

abbrev pub IsLabel : Text → Type 0
IsLabel label =
    (0 < length label)
    × (length label ≤ 63)
    × (starts_with_char 45 label ≡ false)
    × (ends_with_char 45 label ≡ false)
    × All IsLabelChar label

abbrev pub IsDomain : Text → Type 0
IsDomain domain = (0 < length domain) × (length domain ≤ 253) × All IsLabel (split_on 46 domain)

All-all {ℓ κ} :
    {A : Type ℓ} (p : A → Bool) (P : A → Type κ)
    → ((a : A) → p a ≡ true → P a)
    → (xs : List A) → all p xs ≡ true
    → All P xs
All-all p P h [] e = tt
All-all p P h (x ∷ xs) e =
    let (here, there) = and-true (p x) (all p xs) e in (h x here, All-all p P h xs there)

IsLabelChar-is_label_char : (c : ℕ) → is_label_char c ≡ true → IsLabelChar c
unfolding is_label_char is_alnum
IsLabelChar-is_label_char c h = ground arith

IsLabel-valid_label : (label : Text) → valid_label label ≡ true → IsLabel label
unfolding valid_label
IsLabel-valid_label label h = (
  ground arith,
  ground arith,
  ground arith,
  ground arith,
  All-all is_label_char IsLabelChar IsLabelChar-is_label_char label (ground arith),
)

pub IsDomain-valid_ascii_domain :
    (domain : Text) → valid_ascii_domain domain ≡ true → IsDomain domain
unfolding valid_ascii_domain
IsDomain-valid_ascii_domain domain h = (
  ground arith,
  ground arith,
  All-all valid_label IsLabel IsLabel-valid_label (split_on 46 domain) (ground arith),
)

abbrev All² : (ℕ → Type 0) → List Text → Type 0
All² P = All (All P)

All-onto_first :
    (P : ℕ → Type 0) (c : ℕ) (ws : List Text) → All² P (onto_first c ws) → P c × All² P ws
All-onto_first P c [] (h, _) = (h.0, tt)
All-onto_first P c (w ∷ ws) (h, hs) = (h.0, (h.1, hs))

All-split_on :
    (P : ℕ → Type 0) (sep : ℕ) (s : Text) → All² P (split_on sep s) → All (λ c. (c ≡ sep) ⊎ P c) s
All-split_on P sep [] h = tt
All-split_on P sep (c ∷ s) h = elim (Bool-cases (eqb c sep)) [
  | inl same ↦ (
    inl ((eqb_iff c sep).0 same),
    All-split_on P sep s (let k : All² P ([] ∷ split_on sep s) = rw same at h in k.1),
  )
  | inr other ↦
      let k : All² P (onto_first c (split_on sep s)) = rw other at h in
      let (now, later) = All-onto_first P c (split_on sep s) k in
      (inr now, All-split_on P sep s later)
]

has_char-All :
    (P : ℕ → Type 0) (k : ℕ) (s : Text)
    → ((c : ℕ) → P c → eqb k c ≡ false)
    → All P s
    → has_char k s ≡ false
has_char-All P k [] h a = refl
has_char-All P k (c ∷ s) h (now, later) = rw (h c now) (has_char-All P k s h later)

All-map {ℓ κ μ} :
    {A : Type ℓ} (P : A → Type κ) (Q : A → Type μ)
    → ((a : A) → P a → Q a)
    → (xs : List A) → All P xs
    → All Q xs
All-map P Q h [] a = tt
All-map P Q h (x ∷ xs) (now, later) = (h x now, All-map P Q h xs later)

-- A domain name holds no "@".
pub has_char-IsDomain : (domain : Text) → IsDomain domain → has_char 64 domain ≡ false
has_char-IsDomain domain d =
    has_char-All (λ c. (c ≡ 46) ⊎ IsLabelChar c) 64 domain (λ c h. ground arith)
      (All-split_on IsLabelChar 46 domain
        (All-map IsLabel (All IsLabelChar) (λ label l. l.4) (split_on 46 domain) d.2))

-- A local part holds no "@".
pub has_char-valid_local_part :
    (u : Unicode) (allow : Bool) (s : Text)
    → valid_local_part u allow s ≡ true
    → has_char 64 s ≡ false
unfolding valid_local_part
has_char-valid_local_part u allow s h =
    has_char-All (λ c. valid_local_char u allow c ≡ true) 64 s
      (λ c v. unfold valid_local_char is_alnum in ground arith)
      (All-all (valid_local_char u allow) (λ c. valid_local_char u allow c ≡ true) (λ c v. v) s
        (ground arith))

-- A valid local part has between 1 and 64 bytes.
pub bytes-valid_local_part :
    (u : Unicode) (allow : Bool) (s : Text)
    → valid_local_part u allow s ≡ true
    → (n : ℕ) × (utf8_length s ≡ some n) × (0 < n) × (n ≤ 64)
unfolding valid_local_part
bytes-valid_local_part u allow s h = elim (Option-cases (utf8_length s)) [
  | inl e ↦ ground arith
  | inr (n, e) ↦ (n, e, ground arith, ground arith)
]

pub split-before-after : (c : ℕ) (s : Text) → 0 < count_char c s → s ≡ before c s ++ c ∷ after c s
split-before-after c [] h = elim h [ ]
split-before-after c (d ∷ s) h = ground (arith, split-before-after c s, eqb_iff d c)

pub before-append : (c : ℕ) (s t : Text) → has_char c s ≡ false → before c (s ++ c ∷ t) ≡ s
before-append c [] t h = ground arith
before-append c (d ∷ s) t h = ground (arith, before-append c s t)

pub after-append : (c : ℕ) (s t : Text) → has_char c s ≡ false → after c (s ++ c ∷ t) ≡ t
after-append c [] t h = ground arith
after-append c (d ∷ s) t h = ground (arith, after-append c s t)
