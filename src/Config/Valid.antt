-- ===== src/Config/Valid.antt =====
-- What a valid configuration of app/config.py is, told apart from the checks that find it valid: each
-- number with its bounds, and what must hold between the values.
use rapid_inbox.Base.{
  pos, strip_by, codes, Text, ℤ, ℕ, ◌≤◌, ◌≡◌, ◌≢◌, ◌⊎◌, true, ◌||◌, some, [], length, eqb,
}
use rapid_inbox.Routing.Address.{Unicode}
use rapid_inbox.Config.Fields.{Settings}
use rapid_inbox.Config.Check.{Addresses}

abbrev pub Between : ℕ → ℕ → ℤ → Type 0
Between lo hi i = (n : ℕ) × (i ≡ pos n) × (lo ≤ n) × (n ≤ hi)

-- One number is at most the other.
abbrev pub FitsIn : ℤ → ℤ → Type 0
FitsIn i j = (m n : ℕ) × (i ≡ pos m) × (j ≡ pos n) × (m ≤ n)

pub record HttpBounds (s : Settings) : Type 0 where
  pub port : Between 1 65535 s.port
  pub http_max_request_body_bytes : Between 1 67108864 s.http_max_request_body_bytes
  pub http_live_connection_limit : Between 1 100000 s.http_live_connection_limit
  pub http_request_body_timeout_seconds : Between 1 300 s.http_request_body_timeout_seconds
  pub http_concurrency_limit : Between 1 100000 s.http_concurrency_limit
  pub http_body_memory_budget_bytes : Between 1 8589934592 s.http_body_memory_budget_bytes

pub record DatabaseBounds (s : Settings) : Type 0 where
  pub database_write_queue_capacity : Between 1 100000 s.database_write_queue_capacity
  pub database_write_max_waiters : Between 1 100000 s.database_write_max_waiters
  pub database_read_pool_size : Between 1 256 s.database_read_pool_size
  pub database_read_queue_capacity : Between 1 100000 s.database_read_queue_capacity
  pub database_read_max_waiters : Between 1 100000 s.database_read_max_waiters

pub record SmtpBounds (s : Settings) : Type 0 where
  pub database_read_timeout_seconds : Between 1 300 s.database_read_timeout_seconds
  pub smtp_port : Between 1 65535 s.smtp_port
  pub max_message_size_bytes : Between 1 1073741824 s.max_message_size_bytes
  pub max_recipients_per_message : Between 1 10000 s.max_recipients_per_message
  pub smtp_idle_timeout_seconds : Between 1 86400 s.smtp_idle_timeout_seconds
  pub smtp_max_concurrent_connections : Between 0 100000 s.smtp_max_concurrent_connections
  pub smtp_connection_rate_limit_count : Between 0 10000000 s.smtp_connection_rate_limit_count
  pub smtp_connection_rate_limit_window_seconds :
      Between 1 86400 s.smtp_connection_rate_limit_window_seconds

pub record ParseBounds (s : Settings) : Type 0 where
  pub parse_worker_count : Between 1 128 s.parse_worker_count
  pub parse_queue_max_messages : Between 1 1000000 s.parse_queue_max_messages
  pub parse_queue_max_bytes : Between 1 1099511627776 s.parse_queue_max_bytes

pub record PreviewBounds (s : Settings) : Type 0 where
  pub message_preview_body_bytes : Between 1 16777216 s.message_preview_body_bytes
  pub message_preview_headers_bytes : Between 1 1048576 s.message_preview_headers_bytes
  pub message_preview_inline_item_bytes : Between 1 8388608 s.message_preview_inline_item_bytes
  pub message_preview_inline_total_bytes : Between 1 33554432 s.message_preview_inline_total_bytes

pub record DiskBounds (s : Settings) : Type 0 where
  pub disk_warning_threshold_percent : Between 1 100 s.disk_warning_threshold_percent

pub record RetentionBounds (s : Settings) : Type 0 where
  pub catch_all_retention_days : Between 0 36500 s.catch_all_retention_days
  pub retention_cleanup_interval_seconds : Between 1 86400 s.retention_cleanup_interval_seconds
  pub smtp_session_retention_seconds : Between 1 315360000 s.smtp_session_retention_seconds
  pub empty_mailbox_retention_seconds : Between 1 315360000 s.empty_mailbox_retention_seconds
  pub metric_retention_seconds : Between 1 315360000 s.metric_retention_seconds
  pub audit_retention_days : Between 1 36500 s.audit_retention_days
  pub cleanup_batch_size : Between 1 10000 s.cleanup_batch_size
  pub file_gc_batch_size : Between 1 10000 s.file_gc_batch_size
  pub maintenance_run_retention_days : Between 1 36500 s.maintenance_run_retention_days
  pub quarantine_retention_days : Between 1 36500 s.quarantine_retention_days
  pub orphan_artifact_grace_seconds : Between 1 315360000 s.orphan_artifact_grace_seconds
  pub artifact_sweep_batch_size : Between 1 10000 s.artifact_sweep_batch_size

-- A host is local if nothing is left of it without spaces and brackets, or "localhost", or an address
-- of the loopback network.
abbrev pub IsLocal : Unicode → Addresses → Text → Type 0
IsLocal u addresses host =
    let name = u.lower (strip_by (λ c. eqb c 91 || eqb c 93) (strip_by u.is_space host)) in
    (name ≡ []) ⊎ (name ≡ codes "localhost") ⊎ (addresses.is_loopback name ≡ some true)

-- A secret that may be used: neither empty nor the one that the repository publishes.
abbrev pub IsSecret : Unicode → Text → Text → Type 0
IsSecret u published secret =
    (strip_by u.is_space secret ≢ []) × (strip_by u.is_space secret ≢ published)

pub record IsValid (u : Unicode) (addresses : Addresses) (s : Settings) : Type 0 where
  pub http : HttpBounds s
  pub database : DatabaseBounds s
  pub smtp : SmtpBounds s
  pub parse : ParseBounds s
  pub preview : PreviewBounds s
  pub disk : DiskBounds s
  pub retention : RetentionBounds s
  pub min_free : (n : ℕ) × (s.readiness_min_free_disk_bytes ≡ pos n)
  pub body_budget : FitsIn s.http_max_request_body_bytes s.http_body_memory_budget_bytes
  pub read_queue : FitsIn s.database_read_pool_size s.database_read_queue_capacity
  pub parse_budget : FitsIn s.max_message_size_bytes s.parse_queue_max_bytes
  pub preview_item : FitsIn s.message_preview_inline_item_bytes s.message_preview_inline_total_bytes
  pub smtp_limit : s.smtp_max_concurrent_connections ≡ pos 0 → IsLocal u addresses s.smtp_host
  pub log_level :
      (s.log_level ≡ codes "CRITICAL")
      ⊎ (s.log_level ≡ codes "ERROR")
      ⊎ (s.log_level ≡ codes "WARNING")
      ⊎ (s.log_level ≡ codes "INFO")
      ⊎ (s.log_level ≡ codes "DEBUG")
  pub log_format : (s.log_format ≡ codes "json") ⊎ (s.log_format ≡ codes "text")
  pub cursor_secret : (s.api_cursor_secret ≡ []) ⊎ (32 ≤ length s.api_cursor_secret)
  pub mode :
      (s.ingress_mode ≡ codes "managed_only") ⊎ (s.ingress_mode ≡ codes "managed_plus_catchall")
  pub admin_token :
      s.legacy_admin_token_enabled ≡ true → IsSecret u (codes "dev-admin-token") s.admin_token
  pub public_key :
      s.legacy_public_api_key_enabled ≡ true → IsSecret u (codes "public-demo-key") s.public_api_key
