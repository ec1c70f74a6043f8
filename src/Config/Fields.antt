-- ===== src/Config/Fields.antt =====
-- The fields of Settings in app/config.py, without its two paths. An integer may be negative here.
use rapid_inbox.Base.{ℤ, Text, codes, ℕ, Bool, List, [], ◌∷◌}

pub record Settings : Type 0 where
  pub port : ℤ
  pub http_max_request_body_bytes : ℤ
  pub http_live_connection_limit : ℤ
  pub http_request_body_timeout_seconds : ℤ
  pub http_concurrency_limit : ℤ
  pub http_body_memory_budget_bytes : ℤ
  pub database_write_queue_capacity : ℤ
  pub database_write_max_waiters : ℤ
  pub database_read_pool_size : ℤ
  pub database_read_queue_capacity : ℤ
  pub database_read_max_waiters : ℤ
  pub database_read_timeout_seconds : ℤ
  pub smtp_port : ℤ
  pub max_message_size_bytes : ℤ
  pub max_recipients_per_message : ℤ
  pub smtp_idle_timeout_seconds : ℤ
  pub smtp_max_concurrent_connections : ℤ
  pub smtp_connection_rate_limit_count : ℤ
  pub smtp_connection_rate_limit_window_seconds : ℤ
  pub parse_worker_count : ℤ
  pub parse_queue_max_messages : ℤ
  pub parse_queue_max_bytes : ℤ
  pub message_preview_body_bytes : ℤ
  pub message_preview_headers_bytes : ℤ
  pub message_preview_inline_item_bytes : ℤ
  pub message_preview_inline_total_bytes : ℤ
  pub disk_warning_threshold_percent : ℤ
  pub catch_all_retention_days : ℤ
  pub retention_cleanup_interval_seconds : ℤ
  pub smtp_session_retention_seconds : ℤ
  pub empty_mailbox_retention_seconds : ℤ
  pub metric_retention_seconds : ℤ
  pub audit_retention_days : ℤ
  pub cleanup_batch_size : ℤ
  pub file_gc_batch_size : ℤ
  pub maintenance_run_retention_days : ℤ
  pub quarantine_retention_days : ℤ
  pub orphan_artifact_grace_seconds : ℤ
  pub artifact_sweep_batch_size : ℤ
  pub readiness_min_free_disk_bytes : ℤ
  pub bootstrap_admin_username : Text
  pub bootstrap_admin_password : Text
  pub session_cookie_name : Text
  pub host : Text
  pub smtp_host : Text
  pub ingress_mode : Text
  pub log_level : Text
  pub log_format : Text
  pub metrics_token : Text
  pub api_cursor_secret : Text
  pub admin_token : Text
  pub public_api_key : Text
  pub smtp_close_after_data : Bool
  pub fsync_storage_writes : Bool
  pub catch_all_public_web_enabled : Bool
  pub catch_all_public_api_enabled : Bool
  pub request_log_enabled : Bool
  pub metrics_enabled : Bool
  pub legacy_admin_token_enabled : Bool
  pub legacy_public_api_key_enabled : Bool

-- One call of `_validate_integer_range`.
pub record Range : Type 0 where
  pub key : Text
  pub value : ℤ
  pub minimum : ℕ
  pub maximum : ℕ

abbrev range : Text → ℤ → ℕ → ℕ → Range
range key value minimum maximum = record {
  key = key;
  value = value;
  minimum = minimum;
  maximum = maximum;
}

-- the calls of `__post_init__`, group by group
abbrev pub http_ranges : Settings → List Range
http_ranges s =
    range (codes "PORT") s.port 1 65535
    ∷ range (codes "HTTP_MAX_REQUEST_BODY_BYTES") s.http_max_request_body_bytes 1 67108864
    ∷ range (codes "HTTP_LIVE_CONNECTION_LIMIT") s.http_live_connection_limit 1 100000
    ∷ range (codes "HTTP_REQUEST_BODY_TIMEOUT_SECONDS") s.http_request_body_timeout_seconds 1 300
    ∷ range (codes "HTTP_CONCURRENCY_LIMIT") s.http_concurrency_limit 1 100000
    ∷ range (codes "HTTP_BODY_MEMORY_BUDGET_BYTES") s.http_body_memory_budget_bytes 1 8589934592
    ∷ []

abbrev pub database_ranges : Settings → List Range
database_ranges s =
    range (codes "DATABASE_WRITE_QUEUE_CAPACITY") s.database_write_queue_capacity 1 100000
    ∷ range (codes "DATABASE_WRITE_MAX_WAITERS") s.database_write_max_waiters 1 100000
    ∷ range (codes "DATABASE_READ_POOL_SIZE") s.database_read_pool_size 1 256
    ∷ range (codes "DATABASE_READ_QUEUE_CAPACITY") s.database_read_queue_capacity 1 100000
    ∷ range (codes "DATABASE_READ_MAX_WAITERS") s.database_read_max_waiters 1 100000
    ∷ []

abbrev pub smtp_ranges : Settings → List Range
smtp_ranges s =
    range (codes "DATABASE_READ_TIMEOUT_SECONDS") s.database_read_timeout_seconds 1 300
    ∷ range (codes "SMTP_PORT") s.smtp_port 1 65535
    ∷ range (codes "MAX_MESSAGE_SIZE_BYTES") s.max_message_size_bytes 1 1073741824
    ∷ range (codes "MAX_RECIPIENTS_PER_MESSAGE") s.max_recipients_per_message 1 10000
    ∷ range (codes "SMTP_IDLE_TIMEOUT_SECONDS") s.smtp_idle_timeout_seconds 1 86400
    ∷ range (codes "SMTP_MAX_CONCURRENT_CONNECTIONS") s.smtp_max_concurrent_connections 0 100000
    ∷ range (codes "SMTP_CONNECTION_RATE_LIMIT_COUNT") s.smtp_connection_rate_limit_count 0 10000000
    ∷ range (codes "SMTP_CONNECTION_RATE_LIMIT_WINDOW_SECONDS")
        s.smtp_connection_rate_limit_window_seconds 1 86400
    ∷ []

abbrev pub parse_ranges : Settings → List Range
parse_ranges s =
    range (codes "PARSE_WORKER_COUNT") s.parse_worker_count 1 128
    ∷ range (codes "PARSE_QUEUE_MAX_MESSAGES") s.parse_queue_max_messages 1 1000000
    ∷ range (codes "PARSE_QUEUE_MAX_BYTES") s.parse_queue_max_bytes 1 1099511627776
    ∷ []

abbrev pub preview_ranges : Settings → List Range
preview_ranges s =
    range (codes "MESSAGE_PREVIEW_BODY_BYTES") s.message_preview_body_bytes 1 16777216
    ∷ range (codes "MESSAGE_PREVIEW_HEADERS_BYTES") s.message_preview_headers_bytes 1 1048576
    ∷ range (codes "MESSAGE_PREVIEW_INLINE_ITEM_BYTES") s.message_preview_inline_item_bytes 1
        8388608
    ∷ range (codes "MESSAGE_PREVIEW_INLINE_TOTAL_BYTES") s.message_preview_inline_total_bytes 1
        33554432
    ∷ []

abbrev pub disk_ranges : Settings → List Range
disk_ranges s =
    range (codes "DISK_WARNING_THRESHOLD_PERCENT") s.disk_warning_threshold_percent 1 100 ∷ []

abbrev pub retention_ranges : Settings → List Range
retention_ranges s =
    range (codes "CATCH_ALL_RETENTION_DAYS") s.catch_all_retention_days 0 36500
    ∷ range (codes "RETENTION_CLEANUP_INTERVAL_SECONDS") s.retention_cleanup_interval_seconds 1
        86400
    ∷ range (codes "SMTP_SESSION_RETENTION_SECONDS") s.smtp_session_retention_seconds 1 315360000
    ∷ range (codes "EMPTY_MAILBOX_RETENTION_SECONDS") s.empty_mailbox_retention_seconds 1 315360000
    ∷ range (codes "METRIC_RETENTION_SECONDS") s.metric_retention_seconds 1 315360000
    ∷ range (codes "AUDIT_RETENTION_DAYS") s.audit_retention_days 1 36500
    ∷ range (codes "CLEANUP_BATCH_SIZE") s.cleanup_batch_size 1 10000
    ∷ range (codes "FILE_GC_BATCH_SIZE") s.file_gc_batch_size 1 10000
    ∷ range (codes "MAINTENANCE_RUN_RETENTION_DAYS") s.maintenance_run_retention_days 1 36500
    ∷ range (codes "QUARANTINE_RETENTION_DAYS") s.quarantine_retention_days 1 36500
    ∷ range (codes "ORPHAN_ARTIFACT_GRACE_SECONDS") s.orphan_artifact_grace_seconds 1 315360000
    ∷ range (codes "ARTIFACT_SWEEP_BATCH_SIZE") s.artifact_sweep_batch_size 1 10000
    ∷ []
