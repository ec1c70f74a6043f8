-- ===== src/Base/Ints.antt =====
-- Python's integers, and what `str` and `int` do with them. Digits are the ASCII ones.
use Prim.Native.Nat.{ℕ, zero, suc, ◌+◌, ◌-◌, ◌*◌, ◌/◌, ◌%◌, ◌<◌}
use mathlib.Core.Path.{◌≡◌, refl, sym, ap, ◌∙◌}
use mathlib.Core.Bool.{Bool, true, false, ◌&&◌}
use mathlib.Core.List.{[], ◌∷◌, ◌++◌, append_assoc, append-nil}
use mathlib.Core.Logic.{inl, inr}
use mathlib.Core.Option.{Option, none, some}
use native.Mathlib.Omega.{arith}
use rapid_inbox.Base.Tests.{ltb, leb, eqb, if◌then◌else◌, Bool-cases}
use rapid_inbox.Base.Lists.{all}
use rapid_inbox.Base.Texts.{Text, strip_by, rstrip_by}

pub data ℤ : Type 0 where
  pos negsuc : ℕ → ℤ

-- the decimal digits of a number; one round of fuel a digit is enough
unfoldable pub digits : ℕ → ℕ → Text
digits zero n = []
digits (suc fuel) n =
    let shorter = digits fuel (n / 10) in
    if ltb n 10 then (48 + n) ∷ [] else shorter ++ (48 + n % 10) ∷ []

-- `str(n)`
unfoldable pub print_int : ℤ → Text
unfolding digits
print_int (pos n) = digits (suc n) n
print_int (negsuc n) = 45 ∷ digits (suc (suc n)) (suc n)

abbrev pub is_digit : ℕ → Bool
is_digit c = leb 48 c && leb c 57

-- digits with single underscores between them; `follows` says that a digit stands before
unfoldable pub scan_digits : Text → Bool → ℕ → Option ℕ
scan_digits [] follows n = if follows then some n else none
scan_digits (c ∷ s) follows n =
    let digit = scan_digits s true (n * 10 + (c - 48)) in
    let underscore = scan_digits s false n in
    if is_digit c then digit else if eqb c 95 && follows then underscore else none

abbrev pub as_pos : Option ℕ → Option ℤ
as_pos none = none
as_pos (some n) = some (pos n)

abbrev pub as_neg : Option ℕ → Option ℤ
as_neg none = none
as_neg (some zero) = some (pos zero)
as_neg (some (suc n)) = some (negsuc n)

abbrev pub scan_sign : Text → Option ℤ
scan_sign [] = none
scan_sign (c ∷ s) =
    if eqb c 45
    then as_neg (scan_digits s false 0)
    else if eqb c 43
    then as_pos (scan_digits s false 0)
    else as_pos (scan_digits (c ∷ s) false 0)

-- `int(s)`, or `none` where it raises ValueError
unfoldable pub parse_int : (ℕ → Bool) → Text → Option ℤ
unfolding scan_digits
parse_int is_space s = scan_sign (strip_by is_space s)

scan-digits :
    (fuel n : ℕ) (rest : Text) (follows : Bool)
    → n < fuel
    → scan_digits (digits fuel n ++ rest) follows 0 ≡ scan_digits rest true n
unfolding digits scan_digits
scan-digits zero n rest follows h = absurd (omega arith)
scan-digits (suc fuel) n rest follows h = elim (Bool-cases (ltb n 10)) [
  | inl small ↦
      let digit : is_digit (48 + n) ≡ true = ground arith in
      let value : 0 * 10 + (48 + n - 48) ≡ n = omega arith in rw (small, digit, value) refl
  | inr large ↦
      let lower : n / 10 < fuel = ground arith in
      let digit : is_digit (48 + n % 10) ≡ true = ground arith in
      let value : n / 10 * 10 + (48 + n % 10 - 48) ≡ n = omega arith in
      let ih = scan-digits fuel (n / 10) ((48 + n % 10) ∷ rest) follows lower in
      rw (large, append_assoc (digits fuel (n / 10)) ((48 + n % 10) ∷ []) rest, ih)
        (rw (digit, value) refl)
]

-- No character of a printed number is a space.
all-append : (p : ℕ → Bool) (s t : Text) → all p s ≡ true → all p t ≡ true → all p (s ++ t) ≡ true
all-append p [] t a b = b
all-append p (c ∷ s) t a b = ground (arith, all-append p s t)

digits-are : (fuel n : ℕ) → n < fuel → all is_digit (digits fuel n) ≡ true
unfolding digits
digits-are zero n h = absurd (omega arith)
digits-are (suc fuel) n h = elim (Bool-cases (ltb n 10)) [
  | inl small ↦ rw small (ground arith)
  | inr large ↦ rw large (
      all-append is_digit (digits fuel (n / 10)) ((48 + n % 10) ∷ [])
        (digits-are fuel (n / 10) (ground arith)) (ground arith))
]

-- No character that passes the test is a space.
abbrev pub Apart : (ℕ → Bool) → (ℕ → Bool) → Type 0
Apart p is_space = (c : ℕ) → p c ≡ true → is_space c ≡ false

rstrip-Apart :
    (p is_space : ℕ → Bool)
    → Apart p is_space
    → (s : Text) → all p s ≡ true
    → rstrip_by is_space s ≡ s
rstrip-Apart p is_space h [] e = refl
rstrip-Apart p is_space h (c ∷ []) e = rw (h c (ground arith)) refl
rstrip-Apart p is_space h (c ∷ d ∷ s) e = rw (rstrip-Apart p is_space h (d ∷ s) (ground arith)) refl

-- A text without spaces is not changed by `strip`.
pub strip-Apart :
    (p is_space : ℕ → Bool)
    → Apart p is_space
    → (s : Text) → all p s ≡ true
    → strip_by is_space s ≡ s
strip-Apart p is_space h [] e = refl
strip-Apart p is_space h (c ∷ s) e =
    rw (rstrip-Apart p is_space h (c ∷ s) e) (rw (h c (ground arith)) refl)

scan_sign-digits :
    (s : Text) (n : ℕ)
    → all is_digit s ≡ true
    → scan_digits s false 0 ≡ some n
    → scan_sign s ≡ some (pos n)
unfolding scan_digits
scan_sign-digits [] n a h = cc
scan_sign-digits (c ∷ s) n a h =
    let minus : eqb c 45 ≡ false = ground arith in
    let plus : eqb c 43 ≡ false = ground arith in rw (minus, plus, h) refl

-- A natural number is read back from its print.
pub parse_int-print :
    (is_space : ℕ → Bool) (n : ℕ)
    → Apart is_digit is_space
    → parse_int is_space (print_int (pos n)) ≡ some (pos n)
unfolding parse_int print_int
parse_int-print is_space n h =
    let s = digits (suc n) n in
    let are = digits-are (suc n) n (omega arith) in
    let scanned : scan_digits s false 0 ≡ some n =
      ap (λ t. scan_digits t false 0) (sym (append-nil s))
      ∙ scan-digits (suc n) n [] false (omega arith)
      ∙ unfold scan_digits in refl in
    rw (strip-Apart is_digit is_space h s are) (scan_sign-digits s n are scanned)
