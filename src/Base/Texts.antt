-- ===== src/Base/Texts.antt =====
-- Texts as lists of code points, with what the program uses of Python's `str`.
use Prim.Native.Nat.{ℕ, ◌+◌}
use Prim.Native.Char.{code}
use Prim.Native.String.{String}
use mathlib.Core.Path.{◌≡◌}
use mathlib.Core.Logic.{◌↔◌}
use mathlib.Core.Bool.{Bool, true, false, ◌&&◌}
use mathlib.Core.List.{List, [], ◌∷◌}
use mathlib.Core.Option.{Option, none, some}
use native.Mathlib.Omega.{arith}
use rapid_inbox.Base.Tests.{ltb, leb, eqb, if◌then◌else◌}
use rapid_inbox.Base.Lists.{any}

abbrev pub Text : Type 0
Text = List ℕ

-- The code points of a literal.
abbrev pub codes : String → Text
codes String.[] = []
codes (String.◌∷◌ c s) = code c ∷ codes s

abbrev pub text_eq : Text → Text → Bool
text_eq [] [] = true
text_eq (a ∷ s) (b ∷ t) = eqb a b && text_eq s t
text_eq _ _ = false

pub text_eq_iff : (s t : Text) → (text_eq s t ≡ true) ↔ (s ≡ t)
text_eq_iff [] [] = ground arith
text_eq_iff [] (b ∷ t) = ground arith
text_eq_iff (a ∷ s) [] = ground arith
text_eq_iff (a ∷ s) (b ∷ t) = ground (arith, text_eq_iff s t)

-- `c in s` for one character, and `s.count(c)`
abbrev pub has_char : ℕ → Text → Bool
has_char c s = any (eqb c) s

abbrev pub count_char : ℕ → Text → ℕ
count_char c [] = 0
count_char c (d ∷ s) = (if eqb d c then 1 else 0) + count_char c s

abbrev pub starts_with_char : ℕ → Text → Bool
starts_with_char c [] = false
starts_with_char c (d ∷ s) = eqb d c

abbrev pub ends_with_char : ℕ → Text → Bool
ends_with_char c [] = false
ends_with_char c (d ∷ []) = eqb d c
ends_with_char c (d ∷ e ∷ s) = ends_with_char c (e ∷ s)

-- `s.split(c)`: always at least one part
abbrev pub onto_first : ℕ → List Text → List Text
onto_first c [] = (c ∷ []) ∷ []
onto_first c (w ∷ ws) = (c ∷ w) ∷ ws

abbrev pub split_on : ℕ → Text → List Text
split_on c [] = [] ∷ []
split_on c (d ∷ s) = let rest = split_on c s in if eqb d c then [] ∷ rest else onto_first d rest

-- `s.split(c, 1)`: what stands before the first `c`, and what stands after it
abbrev pub before : ℕ → Text → Text
before c [] = []
before c (d ∷ s) = let rest = before c s in if eqb d c then [] else d ∷ rest

abbrev pub after : ℕ → Text → Text
after c [] = []
after c (d ∷ s) = let rest = after c s in if eqb d c then s else rest

-- `s.rstrip` of the characters that pass a test
abbrev cons_unless_end : (ℕ → Bool) → ℕ → Text → Text
cons_unless_end p c [] = if p c then [] else c ∷ []
cons_unless_end p c (d ∷ s) = c ∷ d ∷ s

abbrev pub rstrip_by : (ℕ → Bool) → Text → Text
rstrip_by p [] = []
rstrip_by p (c ∷ s) = cons_unless_end p c (rstrip_by p s)

abbrev pub lstrip_by : (ℕ → Bool) → Text → Text
lstrip_by p [] = []
lstrip_by p (c ∷ s) = let rest = lstrip_by p s in if p c then rest else c ∷ s

abbrev pub strip_by : (ℕ → Bool) → Text → Text
strip_by p s = lstrip_by p (rstrip_by p s)

-- The length of `s.encode("utf-8")`, or `none` where a lone surrogate raises UnicodeEncodeError.
abbrev pub utf8_width : ℕ → Option ℕ
utf8_width c =
    if ltb c 0x80
    then some 1
    else if ltb c 0x800
    then some 2
    else if leb 0xd800 c && leb c 0xdfff
    then none
    else if ltb c 0x10000
    then some 3
    else some 4

abbrev pub add_widths : Option ℕ → Option ℕ → Option ℕ
add_widths (some a) (some b) = some (a + b)
add_widths _ _ = none

unfoldable pub utf8_length : Text → Option ℕ
utf8_length [] = some 0
utf8_length (c ∷ s) = add_widths (utf8_width c) (utf8_length s)
