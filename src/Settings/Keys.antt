-- ===== src/Settings/Keys.antt =====
-- The keys of SettingsService in app/services/settings.py: their names, kinds and maxima.
use rapid_inbox.Base.{
  codes, Text, text_eq, ℕ, ◌≡◌, refl, sym, ap, ◌∙◌, Bool, true, Option, none, some, List, [], ◌∷◌,
  get_elem?, eqb, if◌then◌else◌, eqb_iff, some_eq,
}

pub data Key : Type 0 where
  max_message_size_bytes max_recipients_per_message smtp_idle_timeout_seconds : Key
  smtp_max_concurrent_connections smtp_connection_rate_limit_count : Key
  smtp_connection_rate_limit_window_seconds disk_warning_threshold_percent ingress_mode : Key
  catch_all_public_web_enabled catch_all_public_api_enabled catch_all_retention_days : Key
  retention_cleanup_interval_seconds smtp_session_retention_seconds : Key
  empty_mailbox_retention_seconds metric_retention_seconds audit_retention_days : Key
  cleanup_batch_size file_gc_batch_size : Key

-- BOOLEAN_SETTINGS, `ingress_mode`, NON_NEGATIVE_INTEGER_SETTINGS, the rest of INTEGER_SETTINGS
pub data Kind : Type 0 where
  boolean mode non_negative positive : Kind

abbrev pub kind_of : Key → Kind
kind_of ingress_mode = mode
kind_of catch_all_public_web_enabled = boolean
kind_of catch_all_public_api_enabled = boolean
kind_of smtp_max_concurrent_connections = non_negative
kind_of smtp_connection_rate_limit_count = non_negative
kind_of catch_all_retention_days = non_negative
kind_of _ = positive

-- MAXIMUM_INTEGER_SETTINGS, and nothing for the settings that are no integers
abbrev pub maximum : Key → ℕ
maximum max_message_size_bytes = 1073741824
maximum max_recipients_per_message = 10000
maximum smtp_idle_timeout_seconds = 86400
maximum smtp_max_concurrent_connections = 100000
maximum smtp_connection_rate_limit_count = 10000000
maximum smtp_connection_rate_limit_window_seconds = 86400
maximum disk_warning_threshold_percent = 100
maximum catch_all_retention_days = 36500
maximum retention_cleanup_interval_seconds = 86400
maximum smtp_session_retention_seconds = 315360000
maximum empty_mailbox_retention_seconds = 315360000
maximum metric_retention_seconds = 315360000
maximum audit_retention_days = 36500
maximum cleanup_batch_size = 10000
maximum file_gc_batch_size = 10000
maximum _ = 0

abbrev pub key_name : Key → Text
key_name max_message_size_bytes = codes "max_message_size_bytes"
key_name max_recipients_per_message = codes "max_recipients_per_message"
key_name smtp_idle_timeout_seconds = codes "smtp_idle_timeout_seconds"
key_name smtp_max_concurrent_connections = codes "smtp_max_concurrent_connections"
key_name smtp_connection_rate_limit_count = codes "smtp_connection_rate_limit_count"
key_name smtp_connection_rate_limit_window_seconds =
    codes "smtp_connection_rate_limit_window_seconds"
key_name disk_warning_threshold_percent = codes "disk_warning_threshold_percent"
key_name ingress_mode = codes "ingress_mode"
key_name catch_all_public_web_enabled = codes "catch_all_public_web_enabled"
key_name catch_all_public_api_enabled = codes "catch_all_public_api_enabled"
key_name catch_all_retention_days = codes "catch_all_retention_days"
key_name retention_cleanup_interval_seconds = codes "retention_cleanup_interval_seconds"
key_name smtp_session_retention_seconds = codes "smtp_session_retention_seconds"
key_name empty_mailbox_retention_seconds = codes "empty_mailbox_retention_seconds"
key_name metric_retention_seconds = codes "metric_retention_seconds"
key_name audit_retention_days = codes "audit_retention_days"
key_name cleanup_batch_size = codes "cleanup_batch_size"
key_name file_gc_batch_size = codes "file_gc_batch_size"

-- SUPPORTED_SETTINGS
abbrev pub supported_settings : List Key
supported_settings =
    max_message_size_bytes ∷ max_recipients_per_message ∷ smtp_idle_timeout_seconds
    ∷ smtp_max_concurrent_connections ∷ smtp_connection_rate_limit_count
    ∷ smtp_connection_rate_limit_window_seconds ∷ disk_warning_threshold_percent ∷ ingress_mode
    ∷ catch_all_public_web_enabled ∷ catch_all_public_api_enabled ∷ catch_all_retention_days
    ∷ retention_cleanup_interval_seconds ∷ smtp_session_retention_seconds
    ∷ empty_mailbox_retention_seconds ∷ metric_retention_seconds ∷ audit_retention_days
    ∷ cleanup_batch_size ∷ file_gc_batch_size ∷ []

abbrev pub find_key : Text → List Key → Option Key
find_key name [] = none
find_key name (k ∷ keys) = if text_eq name (key_name k) then some k else find_key name keys

-- the supported key of a name
unfoldable pub key_of : Text → Option Key
key_of name = find_key name supported_settings

-- the place of a key in the table, to tell keys apart
abbrev pub key_index : Key → ℕ
key_index max_message_size_bytes = 0
key_index max_recipients_per_message = 1
key_index smtp_idle_timeout_seconds = 2
key_index smtp_max_concurrent_connections = 3
key_index smtp_connection_rate_limit_count = 4
key_index smtp_connection_rate_limit_window_seconds = 5
key_index disk_warning_threshold_percent = 6
key_index ingress_mode = 7
key_index catch_all_public_web_enabled = 8
key_index catch_all_public_api_enabled = 9
key_index catch_all_retention_days = 10
key_index retention_cleanup_interval_seconds = 11
key_index smtp_session_retention_seconds = 12
key_index empty_mailbox_retention_seconds = 13
key_index metric_retention_seconds = 14
key_index audit_retention_days = 15
key_index cleanup_batch_size = 16
key_index file_gc_batch_size = 17

key_at : (k : Key) → get_elem? supported_settings (key_index k) ≡ some k
key_at max_message_size_bytes = refl
key_at max_recipients_per_message = refl
key_at smtp_idle_timeout_seconds = refl
key_at smtp_max_concurrent_connections = refl
key_at smtp_connection_rate_limit_count = refl
key_at smtp_connection_rate_limit_window_seconds = refl
key_at disk_warning_threshold_percent = refl
key_at ingress_mode = refl
key_at catch_all_public_web_enabled = refl
key_at catch_all_public_api_enabled = refl
key_at catch_all_retention_days = refl
key_at retention_cleanup_interval_seconds = refl
key_at smtp_session_retention_seconds = refl
key_at empty_mailbox_retention_seconds = refl
key_at metric_retention_seconds = refl
key_at audit_retention_days = refl
key_at cleanup_batch_size = refl
key_at file_gc_batch_size = refl

abbrev pub same_key : Key → Key → Bool
same_key j k = eqb (key_index j) (key_index k)

pub same_key-eq : (j k : Key) → same_key j k ≡ true → j ≡ k
same_key-eq j k h =
    let same : key_index j ≡ key_index k = (eqb_iff (key_index j) (key_index k)).0 h in
    some_eq (sym (key_at j) ∙ ap (get_elem? supported_settings) same ∙ key_at k)
