-- ===== src/Settings/Values.antt =====
-- The values of settings in app/services/settings.py: how a payload becomes the text of a row, and
-- how a row becomes a setting again.
use rapid_inbox.Base.{
  codes, strip_by, negsuc, text_eq, print_int, pos, ℤ, parse_int, Text, ℕ, zero, suc, Bool, true,
  false, ◌||◌, Option, none, some, List, [], ◌∷◌, any, ltb, if◌then◌else◌,
}
use rapid_inbox.Base.Result.{Result, ok, err}
use rapid_inbox.Routing.Address.{Unicode}
use rapid_inbox.Settings.Keys.{Key, Kind, boolean, mode, non_negative, positive, kind_of, maximum}

-- A value of a payload. A `number` is a float: its print, and its integer if it is a whole number.
-- `other` is a list or an object, with its print.
pub data Value : Type 0 where
  null : Value
  truth : Bool → Value
  integer : ℤ → Value
  number : Text → Option ℤ → Value
  text other : Text → Value

-- A live setting.
pub data Setting : Type 0 where
  flag : Bool → Setting
  count : ℕ → Setting
  choice : Text → Setting

-- ValueError and PermissionError
pub data SettingsError : Type 0 where
  unsupported invalid_value exceeds_budget unauthorized failed_write : SettingsError

abbrev pub managed_only : Text
managed_only = codes "managed_only"

abbrev pub managed_plus_catchall : Text
managed_plus_catchall = codes "managed_plus_catchall"

abbrev pub is_mode : Text → Bool
is_mode s = text_eq s managed_only || text_eq s managed_plus_catchall

-- `str(value)`
abbrev pub value_text : Value → Text
value_text null = codes "None"
value_text (truth true) = codes "True"
value_text (truth false) = codes "False"
value_text (integer i) = print_int i
value_text (number shown _) = shown
value_text (text s) = s
value_text (other shown) = shown

abbrev pub true_words : List Text
true_words = codes "1" ∷ codes "true" ∷ codes "yes" ∷ codes "on" ∷ []

abbrev pub false_words : List Text
false_words = codes "0" ∷ codes "false" ∷ codes "no" ∷ codes "off" ∷ []

abbrev pub word_truth : Text → Option Bool
word_truth s =
    if any (text_eq s) true_words
    then some true
    else if any (text_eq s) false_words
    then some false
    else none

-- a natural number from `least` to `most`
abbrev pub in_range : ℕ → ℕ → ℤ → Option ℕ
in_range least most (negsuc n) = none
in_range least most (pos n) = if ltb n least then none else if ltb most n then none else some n

abbrev pub ranged : ℕ → ℕ → Option ℤ → Option ℕ
ranged least most none = none
ranged least most (some i) = in_range least most i

abbrev pub as_flag : Option Bool → Option Setting
as_flag none = none
as_flag (some b) = some (flag b)

abbrev pub as_count : Option ℕ → Option Setting
as_count none = none
as_count (some n) = some (count n)

abbrev pub as_choice : Option Text → Option Setting
as_choice none = none
as_choice (some m) = some (choice m)

abbrev pub least_of : Kind → ℕ
least_of positive = 1
least_of _ = 0

module _ (u : Unicode) where
  open u use {lower, is_space}

  -- `int(value)` for a value that is no Boolean and no broken float
  abbrev pub value_int : Value → Option ℤ
  value_int (integer i) = some i
  value_int (number _ whole) = whole
  value_int (text s) = parse_int is_space s
  value_int _ = none

  -- `_coerce_bool`
  abbrev pub coerce_bool : Value → Option Bool
  coerce_bool (truth b) = some b
  coerce_bool (integer (pos zero)) = some false
  coerce_bool (integer (pos (suc zero))) = some true
  coerce_bool (text s) = word_truth (lower (strip_by is_space s))
  coerce_bool _ = none

  -- `_coerce_positive_int` and `_coerce_non_negative_int`
  abbrev pub coerce_int : Key → Value → Option ℕ
  coerce_int k v = ranged (least_of (kind_of k)) (maximum k) (value_int v)

  abbrev pub coerce_mode : Value → Option Text
  coerce_mode v =
      let m = lower (strip_by is_space (value_text v)) in if is_mode m then some m else none

  -- what a value means for a key
  abbrev pub coerce_kind : Kind → Key → Value → Option Setting
  coerce_kind boolean k v = as_flag (coerce_bool v)
  coerce_kind mode k v = as_choice (coerce_mode v)
  coerce_kind non_negative k v = as_count (coerce_int k v)
  coerce_kind positive k v = as_count (coerce_int k v)

  unfoldable pub coerce : Key → Value → Option Setting
  unfolding parse_int print_int
  coerce k v = coerce_kind (kind_of k) k v

  -- the text of a setting in its row: "1" or "0", the digits, or the mode
  abbrev pub row_text : Setting → Text
  row_text (flag true) = codes "1"
  row_text (flag false) = codes "0"
  row_text (count n) = print_int (pos n)
  row_text (choice m) = m

  -- one round of `_normalize_payload`
  abbrev pub row_of : Option Setting → Result SettingsError Text
  row_of none = err invalid_value
  row_of (some s) = ok (row_text s)

  unfoldable pub normalize_value : Key → Value → Result SettingsError Text
  unfolding coerce
  normalize_value k v = row_of (coerce k v)

  abbrev pub or_base : Setting → Option Setting → Setting
  or_base base none = base
  or_base base (some s) = s

  -- `_deserialize_value` of a row's text: the base setting where the text means nothing
  unfoldable pub deserialize_value : Key → Setting → Text → Setting
  unfolding coerce
  deserialize_value k base s = or_base base (coerce k (text s))
