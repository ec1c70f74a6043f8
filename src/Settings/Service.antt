-- ===== src/Settings/Service.antt =====
-- SettingsService of app/services/settings.py: the live settings of the process, the snapshot that
-- readers get, and the table of persisted settings.
use rapid_inbox.Base.{
  text_eq, Text, ℕ, Bool, not, Option, none, some, List, [], ◌∷◌, leb, if◌then◌else◌,
}
use rapid_inbox.Base.Result.{Result, ok, err, ◌>>=◌}
use rapid_inbox.Routing.Address.{Unicode}
use rapid_inbox.Settings.Keys.{Key, max_message_size_bytes, key_of, key_name, same_key}
use rapid_inbox.Settings.Values.{
  Value, Setting, flag, count, choice, SettingsError, unsupported, exceeds_budget, unauthorized,
  failed_write, normalize_value, deserialize_value,
}

abbrev pub Settings : Type 0
Settings = Key → Setting

-- `settings` are the fields of the runtime's Settings that have a key; `budget` is its
-- `parse_queue_max_bytes`, which does not change.
pub record Service : Type 0 where
  pub settings : Settings
  pub snapshot : Settings
  pub table : List (Text × Text)
  pub budget : ℕ

-- a value for the key, as `setattr` and as an item of a dict
abbrev pub set_key : Key → Setting → Settings → Settings
set_key k s settings j = if same_key j k then s else settings j

-- `apply_live_settings` of app/runtime.py
unfoldable pub apply_live_settings : List (Key × Setting) → Settings → Settings
apply_live_settings [] settings = settings
apply_live_settings ((k, s) ∷ updates) settings = apply_live_settings updates (set_key k s settings)

-- the last value for a key among updates, else what is live
abbrev pub size_of : Setting → ℕ
size_of (count n) = n
size_of (flag _) = 0
size_of (choice _) = 0

-- `_validate_parse_queue_budget`
abbrev pub within_budget : List (Key × Setting) → Service → Bool
within_budget updates sv =
    leb (size_of (apply_live_settings updates sv.settings max_message_size_bytes)) sv.budget

-- `_refresh_snapshot`; `_base_settings` reads the live settings
abbrev pub refresh_snapshot : Service → Service
refresh_snapshot sv = record sv { snapshot = sv.settings }

abbrev pub apply_updates : List (Key × Setting) → Service → Service
apply_updates updates sv =
    refresh_snapshot (record sv { settings = apply_live_settings updates sv.settings })

-- INSERT … ON CONFLICT DO UPDATE of one row
unfoldable pub upsert : Text → Text → List (Text × Text) → List (Text × Text)
upsert name value [] = (name, value) ∷ []
upsert name value ((n, v) ∷ rows) =
    let rest = upsert name value rows in
    if text_eq name n then (name, value) ∷ rows else (n, v) ∷ rest

unfoldable pub upsert_all : List (Key × Text) → List (Text × Text) → List (Text × Text)
unfolding upsert
upsert_all [] rows = rows
upsert_all ((k, value) ∷ normalized) rows = upsert_all normalized (upsert (key_name k) value rows)

-- `_validate_supported_keys`
abbrev with_key :
    Option Key
    → Value
    → Result SettingsError (List (Key × Value))
    → Result SettingsError (List (Key × Value))
with_key none v rest = err unsupported
with_key (some k) v rest = rest >>= λ pairs. ok ((k, v) ∷ pairs)

unfoldable pub supported_keys : List (Text × Value) → Result SettingsError (List (Key × Value))
unfolding key_of
supported_keys [] = ok []
supported_keys ((name, v) ∷ payload) = with_key (key_of name) v (supported_keys payload)

-- What happens outside: whether the principal is authorised, the transaction commits, and the
-- domains service takes the ingress policy.
pub record Outside : Type 0 where
  pub authorized : Bool
  pub commits : Bool
  pub synced : Bool

abbrev pub after_sync : Outside → Service → Result SettingsError (Unit {0}) × Service
after_sync out sv = if out.synced then (ok tt, sv) else (err failed_write, sv)

abbrev known_row : Option Key → Text → List (Key × Text) → List (Key × Text)
known_row none value rows = rows
known_row (some k) value rows = (k, value) ∷ rows

-- the rows of the table whose key is supported, in the order in which they are read
unfoldable pub known_rows : List (Text × Text) → List (Key × Text)
unfolding key_of
known_rows [] = []
known_rows ((name, value) ∷ rows) = known_row (key_of name) value (known_rows rows)

module _ (u : Unicode) where
  -- `_normalize_payload`
  unfoldable pub normalize_payload : List (Key × Value) → Result SettingsError (List (Key × Text))
  unfolding normalize_value
  normalize_payload [] = ok []
  normalize_payload ((k, v) ∷ pairs) =
      normalize_value u k v >>= λ t. normalize_payload pairs >>= λ rest. ok ((k, t) ∷ rest)

  -- the rows that have a meaning, with `base` for a text that has none
  unfoldable pub deserialize_all : Settings → List (Key × Text) → List (Key × Setting)
  unfolding deserialize_value
  deserialize_all base [] = []
  deserialize_all base ((k, t) ∷ rows) =
      (k, deserialize_value u k (base k) t) ∷ deserialize_all base rows

  abbrev pub commit :
      Outside → List (Key × Text) → Service → Result SettingsError (Unit {0}) × Service
  commit out normalized sv =
      let updates = deserialize_all sv.settings normalized in
      if not (within_budget updates sv)
      then (err exceeds_budget, sv)
      else if not out.authorized
      then (err unauthorized, sv)
      else if not out.commits
      then (err failed_write, sv)
      else after_sync out
          (apply_updates updates (record sv { table = upsert_all normalized sv.table }))

  abbrev pub update_normalized :
      Outside
      → Result SettingsError (List (Key × Text))
      → Service
      → Result SettingsError (Unit {0}) × Service
  update_normalized out (err e) sv = (err e, sv)
  update_normalized out (ok []) sv = (ok tt, sv)
  update_normalized out (ok (n ∷ normalized)) sv = commit out (n ∷ normalized) sv

  unfoldable pub update_settings :
      Outside → List (Text × Value) → Service → Result SettingsError (Unit {0}) × Service
  unfolding supported_keys normalize_payload deserialize_all apply_live_settings upsert_all
  update_settings out payload sv =
      update_normalized out (supported_keys payload >>= normalize_payload) sv

  unfoldable pub load_persisted_settings :
      Outside → Service → Result SettingsError (Unit {0}) × Service
  unfolding known_rows deserialize_all apply_live_settings
  load_persisted_settings out sv =
      let updates = deserialize_all sv.settings (known_rows sv.table) in
      if within_budget updates sv
      then after_sync out (apply_updates updates sv)
      else (err exceeds_budget, sv)
