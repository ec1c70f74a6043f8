-- ===== src/Settings/Tests.antt =====
-- Tests of the settings service, and the example runs of its theorems.
use rapid_inbox.Base.{
  Text, codes, ℕ, ◌+◌, ◌≡◌, refl, ap, ◌∙◌, true, false, ◌&&◌, some, List, [], ◌∷◌, arith, all, ltb,
  leb, eqb, if◌then◌else◌, and-true, pos, digits, print_int, scan_digits, parse_int,
}
use rapid_inbox.Base.Result.{ok, err}
use rapid_inbox.Routing.Address.{Unicode}
use rapid_inbox.Settings.Keys.{
  Key, max_message_size_bytes, max_recipients_per_message, smtp_idle_timeout_seconds,
  smtp_max_concurrent_connections, smtp_connection_rate_limit_count,
  smtp_connection_rate_limit_window_seconds, disk_warning_threshold_percent, ingress_mode,
  catch_all_public_web_enabled, catch_all_public_api_enabled, catch_all_retention_days,
  retention_cleanup_interval_seconds, smtp_session_retention_seconds,
  empty_mailbox_retention_seconds, metric_retention_seconds, audit_retention_days,
  cleanup_batch_size, file_gc_batch_size, key_of,
}
use rapid_inbox.Settings.Values.{
  Value, integer, text, Setting, flag, count, choice, managed_only, coerce, normalize_value,
  deserialize_value, exceeds_budget, invalid_value, unsupported,
}
use rapid_inbox.Settings.Service.{
  Settings, Service, Outside, apply_live_settings, upsert, upsert_all, supported_keys,
  normalize_payload, deserialize_all, update_settings, load_persisted_settings,
}
use rapid_inbox.Settings.Invariant.{
  InRange, IsSettled, Run, started, later, updates, loads, writes, Run-IsSettled,
}
use rapid_inbox.Settings.RoundTrip.{is_plain, Ordinary, deserialize-normalize}

-- ASCII tables
abbrev lower_char : ℕ → ℕ
lower_char c = if leb 65 c && leb c 90 then c + 32 else c

abbrev lower : Text → Text
lower [] = []
lower (c ∷ s) = lower_char c ∷ lower s

abbrev ascii : Unicode
ascii = record {
  lower = lower;
  is_space = λ c. eqb c 32;
  is_other = λ c. ltb c 32;
  idna = λ s. some s;
}

plain_char : (c : ℕ) → is_plain c ≡ true → lower_char c ≡ c
plain_char c h = ground arith

plain_lower : (s : Text) → all is_plain s ≡ true → lower s ≡ s
plain_lower [] h = refl
plain_lower (c ∷ s) h =
    let (a, b) = and-true (is_plain c) (all is_plain s) h in
    ap (λ d. d ∷ lower s) (plain_char c a) ∙ ap (λ t. c ∷ t) (plain_lower s b)

ascii-Ordinary : Ordinary ascii
ascii-Ordinary = record { no_space = λ c h. ground (arith, h); lower_plain = plain_lower }

abbrev defaults : Settings
defaults max_message_size_bytes = count 52428800
defaults max_recipients_per_message = count 20
defaults smtp_idle_timeout_seconds = count 30
defaults smtp_max_concurrent_connections = count 1024
defaults smtp_connection_rate_limit_count = count 60000
defaults smtp_connection_rate_limit_window_seconds = count 60
defaults disk_warning_threshold_percent = count 85
defaults ingress_mode = choice managed_only
defaults catch_all_public_web_enabled = flag false
defaults catch_all_public_api_enabled = flag false
defaults catch_all_retention_days = count 0
defaults retention_cleanup_interval_seconds = count 30
defaults smtp_session_retention_seconds = count 86400
defaults empty_mailbox_retention_seconds = count 86400
defaults metric_retention_seconds = count 604800
defaults audit_retention_days = count 90
defaults cleanup_batch_size = count 1000
defaults file_gc_batch_size = count 500

abbrev service : Service
service = record { settings = defaults; snapshot = defaults; table = []; budget = 536870912 }

abbrev fine : Outside
fine = record { authorized = true; commits = true; synced = true }

abbrev payload : List (Text × Value)
payload =
    (codes "max_recipients_per_message", text (codes " 50 "))
    ∷ (codes "ingress_mode", text (codes "Managed_Only"))
    ∷ []

abbrev updated : Service
updated = (update_settings ascii fine payload service).1

-- The change is live, in the snapshot and in the table; what is out of bounds is refused.
runs :
    (updated.snapshot max_recipients_per_message ≡ count 50)
    × (updated.table
        ≡ (codes "max_recipients_per_message", codes "50")
          ∷ (codes "ingress_mode", codes "managed_only")
          ∷ [])
    × ((update_settings ascii fine
          ((codes "max_message_size_bytes", integer (pos 600000000)) ∷ [])
          service).0
        ≡ err exceeds_budget)
    × ((update_settings ascii fine ((codes "cleanup_batch_size", integer (pos 0)) ∷ []) service).0
        ≡ err invalid_value)
    × ((update_settings ascii fine ((codes "port", integer (pos 1)) ∷ []) service).0
        ≡ err unsupported)
unfolding update_settings supported_keys key_of normalize_payload normalize_value coerce parse_int
    scan_digits print_int digits deserialize_all deserialize_value apply_live_settings upsert_all
    upsert
runs = (refl, refl, refl, refl, refl)

defaults_in_range : (k : Key) → InRange k (defaults k)
defaults_in_range max_message_size_bytes = (omega arith, omega arith)
defaults_in_range max_recipients_per_message = (omega arith, omega arith)
defaults_in_range smtp_idle_timeout_seconds = (omega arith, omega arith)
defaults_in_range smtp_max_concurrent_connections = omega arith
defaults_in_range smtp_connection_rate_limit_count = omega arith
defaults_in_range smtp_connection_rate_limit_window_seconds = (omega arith, omega arith)
defaults_in_range disk_warning_threshold_percent = (omega arith, omega arith)
defaults_in_range ingress_mode = refl
defaults_in_range catch_all_public_web_enabled = tt
defaults_in_range catch_all_public_api_enabled = tt
defaults_in_range catch_all_retention_days = omega arith
defaults_in_range retention_cleanup_interval_seconds = (omega arith, omega arith)
defaults_in_range smtp_session_retention_seconds = (omega arith, omega arith)
defaults_in_range empty_mailbox_retention_seconds = (omega arith, omega arith)
defaults_in_range metric_retention_seconds = (omega arith, omega arith)
defaults_in_range audit_retention_days = (omega arith, omega arith)
defaults_in_range cleanup_batch_size = (omega arith, omega arith)
defaults_in_range file_gc_batch_size = (omega arith, omega arith)

service-IsSettled : IsSettled service
service-IsSettled = record {
  in_range = defaults_in_range;
  current = λ k. refl;
  affordable = omega arith;
}

-- an update, and a reload after the table was written to
abbrev rows : List (Text × Text)
rows =
    (codes "audit_retention_days", codes "0") ∷ (codes "smtp_idle_timeout_seconds", codes "45") ∷ []

abbrev reloaded : Service
reloaded = (load_persisted_settings ascii fine (record updated { table = rows })).1

run3 : Run ascii service reloaded
run3 =
    later (later (later started (updates fine payload service)) (writes rows updated))
      (loads fine (record updated { table = rows }))

Run-IsSettled_example : IsSettled reloaded
Run-IsSettled_example = Run-IsSettled ascii service reloaded service-IsSettled run3

fifty : normalize_value ascii max_recipients_per_message (text (codes " 50 ")) ≡ ok (codes "50")
unfolding normalize_value coerce parse_int scan_digits print_int digits
fifty = refl

deserialize-normalize_example :
    (s : Setting) × (coerce ascii max_recipients_per_message (text (codes " 50 ")) ≡ some s)
    × InRange max_recipients_per_message s
    × (deserialize_value ascii max_recipients_per_message (count 20) (codes "50") ≡ s)
deserialize-normalize_example =
    deserialize-normalize ascii ascii-Ordinary max_recipients_per_message (text (codes " 50 "))
      (codes "50") (count 20) fifty
