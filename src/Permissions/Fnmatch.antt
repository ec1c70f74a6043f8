-- ===== src/Permissions/Fnmatch.antt =====
-- Python's `fnmatchcase`, which app/auth/permissions.py calls on mailbox patterns: "*", "?" and the
-- bracket expressions "[ab]", "[a-c]" and "[!a]". A "[" that no "]" closes stands for itself. An
-- empty range holds no character; that CPython reads the "!" behind one as a negation, as in
-- "[b-a!c]", is left out.
use rapid_inbox.Base.{
  ℕ, zero, suc, Bool, true, false, not, ◌&&◌, ◌||◌, Option, none, some, List, [], ◌∷◌, any, eqb,
  leb, if◌then◌else◌, Text, take,
}

pub data Token : Type 0 where
  star question : Token
  literal : ℕ → Token
  bracket : Bool → List (ℕ × ℕ) → Token

abbrev pub is_star : ℕ → Bool
is_star c = eqb c 42

abbrev pub is_question : ℕ → Bool
is_question c = eqb c 63

abbrev one_more : Option ℕ → Option ℕ
one_more none = none
one_more (some n) = some (suc n)

-- where the "]" stands, one that opens the expression not counted
unfoldable pub closing_from : Bool → Text → Option ℕ
closing_from opens [] = none
closing_from opens (c ∷ s) =
    let rest = closing_from false s in if eqb c 93 && not opens then some 0 else one_more rest

-- the length of the expression behind the "[", without the "]"
unfoldable pub bracket_length : Text → Option ℕ
unfolding closing_from
bracket_length [] = none
bracket_length (c ∷ s) =
    if eqb c 33 then one_more (closing_from true s) else closing_from true (c ∷ s)

-- "a-c" is a range, another character a range of its own; `skip` characters are read already
unfoldable pub bracket_ranges : ℕ → Text → List (ℕ × ℕ)
bracket_ranges skip [] = []
bracket_ranges (suc skip) (a ∷ s) = bracket_ranges skip s
bracket_ranges zero (a ∷ []) = (a, a) ∷ []
bracket_ranges zero (a ∷ b ∷ []) = (a, a) ∷ (b, b) ∷ []
bracket_ranges zero (a ∷ b ∷ c ∷ s) =
    let rest = bracket_ranges (if eqb b 45 then 2 else 0) (b ∷ c ∷ s) in
    if eqb b 45 then (a, c) ∷ rest else (a, a) ∷ rest

unfoldable pub read_bracket : Text → Token
unfolding bracket_ranges
read_bracket [] = bracket false []
read_bracket (c ∷ s) =
    if eqb c 33 then bracket true (bracket_ranges 0 s) else bracket false (bracket_ranges 0 (c ∷ s))

abbrev pub plain_token : ℕ → Token
plain_token c = if is_star c then star else if is_question c then question else literal c

abbrev next_token : ℕ → Text → Option ℕ → Token
next_token c s none = plain_token c
next_token c s (some n) = read_bracket (take n s)

abbrev skipped : Option ℕ → ℕ
skipped none = 0
skipped (some n) = suc n

unfoldable pub translate : ℕ → Text → List Token
unfolding bracket_length read_bracket
translate skip [] = []
translate (suc skip) (c ∷ s) = translate skip s
translate zero (c ∷ s) =
    let found : Option ℕ = if eqb c 91 then bracket_length s else none in
    next_token c s found ∷ translate (skipped found) s

-- some tail of the text satisfies the test
abbrev pub any_tail : (Text → Bool) → Text → Bool
any_tail f [] = f []
any_tail f (c ∷ s) = f (c ∷ s) || any_tail f s

abbrev in_range : ℕ → ℕ × ℕ → Bool
in_range c (lo, hi) = leb lo c && leb c hi

abbrev negate_if : Bool → Bool → Bool
negate_if negated found = if negated then not found else found

-- the pattern first, so that the recursion on it is structural
unfoldable pub match_tokens : List Token → Text → Bool
match_tokens [] [] = true
match_tokens [] (c ∷ s) = false
match_tokens (star ∷ ts) s = any_tail (match_tokens ts) s
match_tokens (_ ∷ ts) [] = false
match_tokens (question ∷ ts) (c ∷ s) = match_tokens ts s
match_tokens (literal p ∷ ts) (c ∷ s) = eqb p c && match_tokens ts s
match_tokens (bracket negated rs ∷ ts) (c ∷ s) =
    negate_if negated (any (in_range c) rs) && match_tokens ts s

unfoldable pub fnmatch : Text → Text → Bool
unfolding translate match_tokens
fnmatch pattern text = match_tokens (translate 0 pattern) text
