-- ===== src/Permissions/Glob.antt =====
-- What the mailbox patterns of app/auth/permissions.py mean.
use rapid_inbox.Permissions.Fnmatch.{
  is_star, is_question, plain_token, any_tail, translate, match_tokens, fnmatch,
}
use rapid_inbox.Base.{
  ap, ℕ, ◌≡◌, refl, sym, ◌∙◌, ◌≢◌, ◌↔◌, inl, inr, Bool, true, false, ◌||◌, [], ◌∷◌, arith, eqb,
  if◌then◌else◌, Bool-cases, Text, has_char,
}

unfoldable pub mailbox_pattern_matches : Text → Text → Bool
unfolding fnmatch
mailbox_pattern_matches mailbox_address mailbox_pattern = fnmatch mailbox_pattern mailbox_address

-- A pattern without brackets, read character by character.
unfoldable plain : Text → Text → Bool
plain [] [] = true
plain [] (c ∷ s) = false
plain (p ∷ ps) [] = let rest = plain ps [] in if is_star p then rest else false
plain (p ∷ ps) (c ∷ s) =
    let tails = any_tail (plain ps) (c ∷ s) in
    let rest = plain ps s in
    if is_star p then tails else if is_question p || eqb p c then rest else false

any_tail-plain :
    (f g : Text → Bool) → ((s : Text) → f s ≡ g s) → (s : Text) → any_tail f s ≡ any_tail g s
any_tail-plain f g h [] = h []
any_tail-plain f g h (c ∷ s) = ground (arith, h (c ∷ s), any_tail-plain f g h s)

translate-plain :
    (c : ℕ) (p : Text) → eqb c 91 ≡ false → translate 0 (c ∷ p) ≡ plain_token c ∷ translate 0 p
unfolding translate
translate-plain c p n = rw n refl

match-star :
    (p : ℕ) (ps s : Text)
    → is_star p ≡ true
    → ((t : Text) → match_tokens (translate 0 ps) t ≡ plain ps t)
    → match_tokens (plain_token p ∷ translate 0 ps) s ≡ plain (p ∷ ps) s
unfolding match_tokens plain
match-star p ps [] wild h = rw (wild, h []) refl
match-star p ps (c ∷ s) wild h =
    rw wild (any_tail-plain (match_tokens (translate 0 ps)) (plain ps) h (c ∷ s))

match-character :
    (p : ℕ) (ps s : Text)
    → is_star p ≡ false
    → ((t : Text) → match_tokens (translate 0 ps) t ≡ plain ps t)
    → match_tokens (plain_token p ∷ translate 0 ps) s ≡ plain (p ∷ ps) s
unfolding match_tokens plain
match-character p ps [] other h = ground arith
match-character p ps (c ∷ s) other h = elim (Bool-cases (is_question p)) [
  | inl one ↦ rw (other, one, h s) refl
  | inr char ↦ rw (other, char, h s) (ground arith)
]

match-head :
    (p : ℕ) (ps : Text)
    → ((s : Text) → match_tokens (translate 0 ps) s ≡ plain ps s)
    → (s : Text) → match_tokens (plain_token p ∷ translate 0 ps) s ≡ plain (p ∷ ps) s
unfolding match_tokens plain
match-head p ps h s = elim (Bool-cases (is_star p)) [
  | inl wild ↦ match-star p ps s wild h
  | inr other ↦ match-character p ps s other h
]

-- The translation of a pattern without brackets changes nothing.
match-plain : (p s : Text) → has_char 91 p ≡ false → match_tokens (translate 0 p) s ≡ plain p s
unfolding match_tokens translate plain
match-plain [] [] n = refl
match-plain [] (c ∷ s) n = refl
match-plain (p ∷ ps) s n =
    let other : eqb p 91 ≡ false = ground arith in
    let later : has_char 91 ps ≡ false = ground arith in
    ap (λ ts. match_tokens ts s) (translate-plain p ps other)
    ∙ match-head p ps (λ t. match-plain ps t later) s

fnmatch-plain : (p s : Text) → has_char 91 p ≡ false → fnmatch p s ≡ plain p s
unfolding fnmatch
fnmatch-plain p s n = match-plain p s n

-- What a pattern means: "*" is any text, "?" any one character, another character itself.
pub data Matches : Text → Text → Type 0 where
  done : Matches [] []
  star_skip : {ps s : Text} → Matches ps s → Matches (42 ∷ ps) s
  star_take : {ps s : Text} (c : ℕ) → Matches (42 ∷ ps) s → Matches (42 ∷ ps) (c ∷ s)
  question : {ps s : Text} (c : ℕ) → Matches ps s → Matches (63 ∷ ps) (c ∷ s)
  literal : {ps s : Text} (c : ℕ) → c ≢ 42 → Matches ps s → Matches (c ∷ ps) (c ∷ s)

any_tail-Matches :
    (ps : Text)
    → ((s : Text) → plain ps s ≡ true → Matches ps s)
    → (s : Text) → any_tail (plain ps) s ≡ true
    → Matches (42 ∷ ps) s
any_tail-Matches ps h [] e = star_skip (h [] e)
any_tail-Matches ps h (c ∷ s) e = elim (Bool-cases (plain ps (c ∷ s))) [
  | inl here ↦ star_skip (h (c ∷ s) here)
  | inr later ↦
      let rest : any_tail (plain ps) s ≡ true = ground (arith, later, e) in
      star_take c (any_tail-Matches ps h s rest)
]

Matches-of_plain : (p s : Text) → plain p s ≡ true → Matches p s
unfolding plain
Matches-of_plain [] [] e = done
Matches-of_plain [] (c ∷ s) e = cc
Matches-of_plain (p ∷ ps) [] e =
    let star : p ≡ 42 = ground arith in rw star (star_skip (Matches-of_plain ps [] (ground arith)))
Matches-of_plain (p ∷ ps) (c ∷ s) e = elim (Bool-cases (is_star p)) [
  | inl star ↦
      let is : p ≡ 42 = ground arith in
      let tails : any_tail (plain ps) (c ∷ s) ≡ true = rw star at e in
      rw is (any_tail-Matches ps (Matches-of_plain ps) (c ∷ s) tails)
  | inr other ↦ elim (Bool-cases (is_question p)) [
    | inl one ↦
        let is : p ≡ 63 = ground arith in
        rw is (question c (Matches-of_plain ps s (ground (arith, e, other, one))))
    | inr char ↦
        let same : p ≡ c = ground (arith, e, other, char) in
        let not_star : c ≢ 42 = ground (arith, other, same) in
        rw same (literal c not_star (Matches-of_plain ps s (ground (arith, e, other, char))))
  ]
]

plain-star : (ps s : Text) → plain (42 ∷ ps) s ≡ any_tail (plain ps) s
unfolding plain
plain-star ps [] = refl
plain-star ps (c ∷ s) = refl

any_tail-here : (f : Text → Bool) (s : Text) → f s ≡ true → any_tail f s ≡ true
any_tail-here f [] h = h
any_tail-here f (c ∷ s) h = ground arith

plain-question : (ps s : Text) (c : ℕ) → plain ps s ≡ true → plain (63 ∷ ps) (c ∷ s) ≡ true
unfolding plain
plain-question ps s c h = h

plain-literal : (ps s : Text) (c : ℕ) → c ≢ 42 → plain ps s ≡ true → plain (c ∷ ps) (c ∷ s) ≡ true
unfolding plain
plain-literal ps s c n h = ground arith

plain-Matches : {p s : Text} → Matches p s → plain p s ≡ true
plain-Matches done = unfold plain in refl
plain-Matches (star_skip {ps} {s} m) =
    plain-star ps s ∙ any_tail-here (plain ps) s (plain-Matches m)
plain-Matches (star_take {ps} {s} c m) =
    let ih = sym (plain-star ps s) ∙ plain-Matches m in plain-star ps (c ∷ s) ∙ ground (arith, ih)
plain-Matches (question {ps} {s} c m) = plain-question ps s c (plain-Matches m)
plain-Matches (literal {ps} {s} c n m) = plain-literal ps s c n (plain-Matches m)

-- For a pattern without a "[": an address passes the matcher exactly when it is one of the texts
-- that the pattern stands for: "*" for any text, "?" for any one character, another character for
-- itself.
pub mailbox_pattern_matches_iff :
    (address pattern : Text)
    → has_char 91 pattern ≡ false
    → (mailbox_pattern_matches address pattern ≡ true) ↔ Matches pattern address
unfolding mailbox_pattern_matches
mailbox_pattern_matches_iff address p n =
    rw (fnmatch-plain p address n) (Matches-of_plain p address, plain-Matches)

-- A pattern with no wildcard matches itself alone.
plain_literal :
    (p s : Text) → has_char 42 p ≡ false → has_char 63 p ≡ false → plain p s ≡ true → s ≡ p
unfolding plain
plain_literal [] [] a b h = refl
plain_literal [] (c ∷ s) a b h = cc
plain_literal (p ∷ ps) [] a b h = ground arith
plain_literal (p ∷ ps) (c ∷ s) a b h = ground (arith, plain_literal ps s)

pub literal_pattern :
    (p s : Text)
    → has_char 91 p ≡ false
    → has_char 42 p ≡ false
    → has_char 63 p ≡ false
    → fnmatch p s ≡ true
    → s ≡ p
literal_pattern p s n a b h = plain_literal p s a b (sym (fnmatch-plain p s n) ∙ h)
