-- ===== src/Settings/RoundTrip.antt =====
-- The text of a setting in its row, read again, from app/services/settings.py.
use rapid_inbox.Base.{
  text_eq_iff, text_eq, strip_by, subst, Text, codes, ℕ, ◌≤◌, ◌≡◌, refl, ap, ◌⊎◌, inl, inr, Bool,
  true, false, ◌&&◌, ◌||◌, Option, none, some, arith, all, leb, eqb, Bool-cases, some_eq, pos,
  Apart, is_digit, strip-Apart, parse_int-print, print_int,
}
use rapid_inbox.Base.Result.{ok}
use rapid_inbox.Routing.Address.{Unicode}
use rapid_inbox.Settings.Keys.{Key, Kind, boolean, mode, non_negative, positive, kind_of, maximum}
use rapid_inbox.Settings.Values.{
  Value, text, Setting, flag, managed_only, managed_plus_catchall, is_mode, ranged, as_flag,
  as_count, as_choice, least_of, coerce_bool, coerce_int, coerce_mode, coerce_kind, coerce,
  row_text, row_of, normalize_value, or_base, deserialize_value,
}
use rapid_inbox.Settings.Invariant.{
  InRange, ranged-bounds, count-eq, choice-eq, is_mode-coerce, coerce-InKind,
}

-- digits, lower-case ASCII letters and the underscore
abbrev pub is_plain : ℕ → Bool
is_plain c = is_digit c || leb 97 c && leb c 122 || eqb c 95

-- What Python's tables say of those characters: none is a space, and `lower` leaves them.
pub record Ordinary (u : Unicode) : Type 0 where
  pub no_space : Apart is_plain u.is_space
  pub lower_plain : (s : Text) → all is_plain s ≡ true → u.lower s ≡ s

is_mode-cases : (m : Text) → is_mode m ≡ true → (m ≡ managed_only) ⊎ (m ≡ managed_plus_catchall)
is_mode-cases m h = elim (Bool-cases (text_eq m managed_only)) [
  | inl same ↦ inl ((text_eq_iff m managed_only).0 same)
  | inr other ↦ inr ((text_eq_iff m managed_plus_catchall).0 (ground (arith, h, other)))
]

flag-eq : (o : Option Bool) (s : Setting) → as_flag o ≡ some s → (b : Bool) × (flag b ≡ s)
flag-eq none s h = cc
flag-eq (some b) s h = (b, some_eq h)

in_range-ranged :
    (least most n : ℕ) → least ≤ n → n ≤ most → ranged least most (some (pos n)) ≡ some n
in_range-ranged least most n a b = ground arith

module _ (u : Unicode) (o : Ordinary u) where
  plain_word : (s : Text) → all is_plain s ≡ true → u.lower (strip_by u.is_space s) ≡ s
  plain_word s h = rw (strip-Apart is_plain u.is_space o.no_space s h) (o.lower_plain s h)

  digit-Apart : Apart is_digit u.is_space
  digit-Apart c h = o.no_space c (ground (arith, h))

  coerce_bool-row : (b : Bool) → coerce_bool u (text (row_text u (flag b))) ≡ some b
  coerce_bool-row true = rw (plain_word (codes "1") refl) refl
  coerce_bool-row false = rw (plain_word (codes "0") refl) refl

  coerce_mode-row : (m : Text) → is_mode m ≡ true → coerce_mode u (text m) ≡ some m
  coerce_mode-row m h = elim (is_mode-cases m h) [
    | inl e ↦ rw e (rw (plain_word managed_only refl) refl)
    | inr e ↦ rw e (rw (plain_word managed_plus_catchall refl) refl)
  ]

  coerce_int-row :
      (k : Key) (n : ℕ)
      → least_of (kind_of k) ≤ n
      → n ≤ maximum k
      → coerce_int u k (text (print_int (pos n))) ≡ some n
  coerce_int-row k n a b =
      rw (parse_int-print u.is_space n digit-Apart)
        (in_range-ranged (least_of (kind_of k)) (maximum k) n a b)

  count-row :
      (k : Key) (v : Value) (s : Setting)
      → as_count (coerce_int u k v) ≡ some s
      → as_count (coerce_int u k (text (row_text u s))) ≡ some s
  count-row k v s h =
      let (n, c, is) = count-eq (coerce_int u k v) s h in
      let (low, high) = ranged-bounds (least_of (kind_of k)) (maximum k) _ n c in
      subst (λ r. as_count (coerce_int u k (text (row_text u r))) ≡ some r) is
        (ap as_count (coerce_int-row k n low high))

  coerce_kind-row :
      (kind : Kind) (k : Key) (v : Value) (s : Setting)
      → coerce_kind u kind k v ≡ some s
      → coerce_kind u kind k (text (row_text u s)) ≡ some s
  coerce_kind-row boolean k v s h =
      let (b, is) = flag-eq (coerce_bool u v) s h in
      subst (λ r. as_flag (coerce_bool u (text (row_text u r))) ≡ some r) is
        (ap as_flag (coerce_bool-row b))
  coerce_kind-row mode k v s h =
      let (m, c, is) = choice-eq (coerce_mode u v) s h in
      subst (λ r. as_choice (coerce_mode u (text (row_text u r))) ≡ some r) is
        (ap as_choice (coerce_mode-row m (is_mode-coerce u v m c)))
  coerce_kind-row non_negative k v s h = count-row k v s h
  coerce_kind-row positive k v s h = count-row k v s h

row_of-ok :
    (u : Unicode) (o : Option Setting) (t : Text)
    → row_of u o ≡ ok t
    → (s : Setting) × (o ≡ some s) × (row_text u s ≡ t)
row_of-ok u none t h = cc
row_of-ok u (some s) t h = (s, refl, (let e : row_text u s ≡ t = cc in e))

-- The row that a payload's value becomes says what the value said: whatever the settings at the
-- time when it is read, it gives the setting that the value stands for, in the bounds of its key.
pub deserialize-normalize :
    (u : Unicode) (o : Ordinary u) (k : Key) (v : Value) (t : Text) (base : Setting)
    → normalize_value u k v ≡ ok t
    → (s : Setting) × (coerce u k v ≡ some s) × InRange k s × (deserialize_value u k base t ≡ s)
unfolding normalize_value deserialize_value coerce
deserialize-normalize u o k v t base h =
    let (s, means, shown) = row_of-ok u (coerce u k v) t h in
    let again : coerce u k (text t) ≡ some s =
      subst (λ r. coerce u k (text r) ≡ some s) shown
        (coerce_kind-row u o (kind_of k) k v s means) in
    (s, means, coerce-InKind u (kind_of k) k v s refl means, ap (or_base u base) again)
