-- ===== src/Config/Environment.antt =====
-- `default_settings` of app/config.py: the settings that an environment gives. The two paths, and
-- the reading of the .env file, are left out.
use rapid_inbox.Base.{
  pos, strip_by, ℤ, text_eq, parse_int, Text, codes, Bool, true, false, Option, none, some, [], ◌∷◌,
  length, any, eqb, if◌then◌else◌,
}
use rapid_inbox.Base.Result.{Result, ok, err, ◌>>=◌}
use rapid_inbox.Routing.Address.{Unicode}
use rapid_inbox.Config.Fields.{Settings}
use rapid_inbox.Config.Check.{
  ConfigError, invalid, Addresses, legacy_secret_enabled, default_admin_token,
  default_public_api_key, post_init,
}

-- the merged environment: `raw.get`
abbrev pub Environment : Type 0
Environment = Text → Option Text

abbrev pub or_default : Text → Option Text → Text
or_default default none = default
or_default default (some value) = value

-- `_coerce_str`
abbrev pub coerce_str : Environment → Text → Text → Text
coerce_str raw key default = or_default default (raw key)

abbrev int_or_raise : Text → Option ℤ → Result ConfigError ℤ
int_or_raise key none = err (invalid key)
int_or_raise key (some i) = ok i

abbrev word_truth : Text → Text → Result ConfigError Bool
word_truth key word =
    if any (text_eq word) (codes "1" ∷ codes "true" ∷ codes "yes" ∷ codes "on" ∷ [])
    then ok true
    else if any (text_eq word) (codes "0" ∷ codes "false" ∷ codes "no" ∷ codes "off" ∷ [])
    then ok false
    else err (invalid key)

module _ (u : Unicode) where
  open u use {lower, is_space}

  abbrev int_of : Text → ℤ → Option Text → Result ConfigError ℤ
  int_of key default none = ok default
  int_of key default (some value) =
      if eqb (length (strip_by is_space value)) 0
      then ok default
      else int_or_raise key (parse_int is_space value)

  -- `_coerce_int`
  unfoldable pub coerce_int : Environment → Text → ℤ → Result ConfigError ℤ
  unfolding parse_int
  coerce_int raw key default = int_of key default (raw key)

  abbrev bool_of : Text → Bool → Option Text → Result ConfigError Bool
  bool_of key default none = ok default
  bool_of key default (some value) =
      if eqb (length (strip_by is_space value)) 0
      then ok default
      else word_truth key (lower (strip_by is_space value))

  -- `_coerce_bool`
  unfoldable pub coerce_bool : Environment → Text → Bool → Result ConfigError Bool
  coerce_bool raw key default = bool_of key default (raw key)

  -- the arguments of `Settings(…)` in their order, each of which may raise
  unfoldable pub read_settings : Environment → Result ConfigError Settings
  unfolding coerce_int coerce_bool
  read_settings raw = coerce_int raw (codes "PORT") (pos 8000) >>= λ v_port.
      coerce_int raw (codes "HTTP_MAX_REQUEST_BODY_BYTES") (pos 1048576)
      >>= λ v_http_max_request_body_bytes.
          coerce_int raw (codes "HTTP_LIVE_CONNECTION_LIMIT") (pos 256)
          >>= λ v_http_live_connection_limit.
              coerce_int raw (codes "HTTP_REQUEST_BODY_TIMEOUT_SECONDS") (pos 15)
              >>= λ v_http_request_body_timeout_seconds.
                  coerce_int raw (codes "HTTP_BODY_MEMORY_BUDGET_BYTES") (pos 268435456)
                  >>= λ v_http_body_memory_budget_bytes.
                      coerce_int raw (codes "HTTP_CONCURRENCY_LIMIT") (pos 1000)
                      >>= λ v_http_concurrency_limit.
                          coerce_int raw (codes "DATABASE_WRITE_QUEUE_CAPACITY") (pos 256)
                          >>= λ v_database_write_queue_capacity.
                              coerce_int raw (codes "DATABASE_WRITE_MAX_WAITERS") (pos 1024)
                              >>= λ v_database_write_max_waiters.
                                  coerce_int raw (codes "DATABASE_READ_POOL_SIZE") (pos 1)
                                  >>= λ v_database_read_pool_size.
                                      coerce_int raw (codes "DATABASE_READ_QUEUE_CAPACITY")
                                        (pos 256)
                                      >>= λ v_database_read_queue_capacity.
                                          coerce_int raw (codes "DATABASE_READ_MAX_WAITERS")
                                            (pos 1024)
                                          >>= λ v_database_read_max_waiters.
                                              coerce_int raw (codes "DATABASE_READ_TIMEOUT_SECONDS")
                                                (pos 5)
                                              >>= λ v_database_read_timeout_seconds.
                                                  coerce_int raw (codes "SMTP_PORT") (pos 25)
                                                  >>= λ v_smtp_port.
                                                      coerce_int raw
                                                        (codes "MAX_MESSAGE_SIZE_BYTES")
                                                        (pos 52428800)
                                                      >>= λ v_max_message_size_bytes.
                                                          coerce_int raw
                                                            (codes "MAX_RECIPIENTS_PER_MESSAGE")
                                                            (pos 20)
                                                          >>= λ v_max_recipients_per_message.
                                                            coerce_int raw
                                                            (codes "SMTP_IDLE_TIMEOUT_SECONDS")
                                                            (pos 30)
                                                            >>= λ v_smtp_idle_timeout_seconds.
                                                            coerce_int raw
                                                            (codes
                                                            "SMTP_MAX_CONCURRENT_CONNECTIONS")
                                                            (pos 1024)
                                                            >>= λ v_smtp_max_concurrent_connections.
                                                            coerce_int raw
                                                            (codes
                                                            "SMTP_CONNECTION_RATE_LIMIT_COUNT")
                                                            (pos 60000)
                                                            >>= λ v_smtp_connection_rate_limit_count.
                                                            coerce_int raw
                                                            (codes
                                                            "SMTP_CONNECTION_RATE_LIMIT_WINDOW_SECONDS")
                                                            (pos 60)
                                                            >>= λ v_smtp_connection_rate_limit_window_seconds.
                                                            coerce_bool raw
                                                            (codes "SMTP_CLOSE_AFTER_DATA") true
                                                            >>= λ v_smtp_close_after_data.
                                                            coerce_int raw
                                                            (codes "PARSE_WORKER_COUNT") (pos 4)
                                                            >>= λ v_parse_worker_count.
                                                            coerce_int raw
                                                            (codes "PARSE_QUEUE_MAX_MESSAGES")
                                                            (pos 10000)
                                                            >>= λ v_parse_queue_max_messages.
                                                            coerce_int raw
                                                            (codes "PARSE_QUEUE_MAX_BYTES")
                                                            (pos 536870912)
                                                            >>= λ v_parse_queue_max_bytes.
                                                            coerce_int raw
                                                            (codes "MESSAGE_PREVIEW_BODY_BYTES")
                                                            (pos 131072)
                                                            >>= λ v_message_preview_body_bytes.
                                                            coerce_int raw
                                                            (codes "MESSAGE_PREVIEW_HEADERS_BYTES")
                                                            (pos 65536)
                                                            >>= λ v_message_preview_headers_bytes.
                                                            coerce_int raw
                                                            (codes
                                                            "MESSAGE_PREVIEW_INLINE_ITEM_BYTES")
                                                            (pos 65536)
                                                            >>= λ v_message_preview_inline_item_bytes.
                                                            coerce_int raw
                                                            (codes
                                                            "MESSAGE_PREVIEW_INLINE_TOTAL_BYTES")
                                                            (pos 262144)
                                                            >>= λ v_message_preview_inline_total_bytes.
                                                            coerce_bool raw
                                                            (codes "FSYNC_STORAGE_WRITES") false
                                                            >>= λ v_fsync_storage_writes.
                                                            coerce_int raw
                                                            (codes "DISK_WARNING_THRESHOLD_PERCENT")
                                                            (pos 85)
                                                            >>= λ v_disk_warning_threshold_percent.
                                                            coerce_bool raw
                                                            (codes "CATCH_ALL_PUBLIC_WEB_ENABLED")
                                                            false
                                                            >>= λ v_catch_all_public_web_enabled.
                                                            coerce_bool raw
                                                            (codes "CATCH_ALL_PUBLIC_API_ENABLED")
                                                            false
                                                            >>= λ v_catch_all_public_api_enabled.
                                                            coerce_int raw
                                                            (codes "CATCH_ALL_RETENTION_DAYS")
                                                            (pos 0)
                                                            >>= λ v_catch_all_retention_days.
                                                            coerce_int raw
                                                            (codes
                                                            "RETENTION_CLEANUP_INTERVAL_SECONDS")
                                                            (pos 30)
                                                            >>= λ v_retention_cleanup_interval_seconds.
                                                            coerce_int raw
                                                            (codes "SMTP_SESSION_RETENTION_SECONDS")
                                                            (pos 86400)
                                                            >>= λ v_smtp_session_retention_seconds.
                                                            coerce_int raw
                                                            (codes
                                                            "EMPTY_MAILBOX_RETENTION_SECONDS")
                                                            (pos 86400)
                                                            >>= λ v_empty_mailbox_retention_seconds.
                                                            coerce_int raw
                                                            (codes "METRIC_RETENTION_SECONDS")
                                                            (pos 604800)
                                                            >>= λ v_metric_retention_seconds.
                                                            coerce_int raw
                                                            (codes "AUDIT_RETENTION_DAYS") (pos 90)
                                                            >>= λ v_audit_retention_days.
                                                            coerce_int raw
                                                            (codes "CLEANUP_BATCH_SIZE") (pos 1000)
                                                            >>= λ v_cleanup_batch_size.
                                                            coerce_int raw
                                                            (codes "FILE_GC_BATCH_SIZE") (pos 500)
                                                            >>= λ v_file_gc_batch_size.
                                                            coerce_int raw
                                                            (codes "MAINTENANCE_RUN_RETENTION_DAYS")
                                                            (pos 30)
                                                            >>= λ v_maintenance_run_retention_days.
                                                            coerce_int raw
                                                            (codes "QUARANTINE_RETENTION_DAYS")
                                                            (pos 30)
                                                            >>= λ v_quarantine_retention_days.
                                                            coerce_int raw
                                                            (codes "ORPHAN_ARTIFACT_GRACE_SECONDS")
                                                            (pos 86400)
                                                            >>= λ v_orphan_artifact_grace_seconds.
                                                            coerce_int raw
                                                            (codes "ARTIFACT_SWEEP_BATCH_SIZE")
                                                            (pos 500)
                                                            >>= λ v_artifact_sweep_batch_size.
                                                            coerce_bool raw
                                                            (codes "REQUEST_LOG_ENABLED") true
                                                            >>= λ v_request_log_enabled.
                                                            coerce_bool raw
                                                            (codes "METRICS_ENABLED") true
                                                            >>= λ v_metrics_enabled.
                                                            coerce_int raw
                                                            (codes "READINESS_MIN_FREE_DISK_BYTES")
                                                            (pos 67108864)
                                                            >>= λ v_readiness_min_free_disk_bytes.
                                                            ok (record {
                                                            port = v_port;
                                                            http_max_request_body_bytes =
                                                            v_http_max_request_body_bytes;
                                                            http_live_connection_limit =
                                                            v_http_live_connection_limit;
                                                            http_request_body_timeout_seconds =
                                                            v_http_request_body_timeout_seconds;
                                                            http_body_memory_budget_bytes =
                                                            v_http_body_memory_budget_bytes;
                                                            http_concurrency_limit =
                                                            v_http_concurrency_limit;
                                                            database_write_queue_capacity =
                                                            v_database_write_queue_capacity;
                                                            database_write_max_waiters =
                                                            v_database_write_max_waiters;
                                                            database_read_pool_size =
                                                            v_database_read_pool_size;
                                                            database_read_queue_capacity =
                                                            v_database_read_queue_capacity;
                                                            database_read_max_waiters =
                                                            v_database_read_max_waiters;
                                                            database_read_timeout_seconds =
                                                            v_database_read_timeout_seconds;
                                                            smtp_port = v_smtp_port;
                                                            max_message_size_bytes =
                                                            v_max_message_size_bytes;
                                                            max_recipients_per_message =
                                                            v_max_recipients_per_message;
                                                            smtp_idle_timeout_seconds =
                                                            v_smtp_idle_timeout_seconds;
                                                            smtp_max_concurrent_connections =
                                                            v_smtp_max_concurrent_connections;
                                                            smtp_connection_rate_limit_count =
                                                            v_smtp_connection_rate_limit_count;
                                                            smtp_connection_rate_limit_window_seconds =
                                                            v_smtp_connection_rate_limit_window_seconds;
                                                            smtp_close_after_data =
                                                            v_smtp_close_after_data;
                                                            parse_worker_count =
                                                            v_parse_worker_count;
                                                            parse_queue_max_messages =
                                                            v_parse_queue_max_messages;
                                                            parse_queue_max_bytes =
                                                            v_parse_queue_max_bytes;
                                                            message_preview_body_bytes =
                                                            v_message_preview_body_bytes;
                                                            message_preview_headers_bytes =
                                                            v_message_preview_headers_bytes;
                                                            message_preview_inline_item_bytes =
                                                            v_message_preview_inline_item_bytes;
                                                            message_preview_inline_total_bytes =
                                                            v_message_preview_inline_total_bytes;
                                                            fsync_storage_writes =
                                                            v_fsync_storage_writes;
                                                            disk_warning_threshold_percent =
                                                            v_disk_warning_threshold_percent;
                                                            catch_all_public_web_enabled =
                                                            v_catch_all_public_web_enabled;
                                                            catch_all_public_api_enabled =
                                                            v_catch_all_public_api_enabled;
                                                            catch_all_retention_days =
                                                            v_catch_all_retention_days;
                                                            retention_cleanup_interval_seconds =
                                                            v_retention_cleanup_interval_seconds;
                                                            smtp_session_retention_seconds =
                                                            v_smtp_session_retention_seconds;
                                                            empty_mailbox_retention_seconds =
                                                            v_empty_mailbox_retention_seconds;
                                                            metric_retention_seconds =
                                                            v_metric_retention_seconds;
                                                            audit_retention_days =
                                                            v_audit_retention_days;
                                                            cleanup_batch_size =
                                                            v_cleanup_batch_size;
                                                            file_gc_batch_size =
                                                            v_file_gc_batch_size;
                                                            maintenance_run_retention_days =
                                                            v_maintenance_run_retention_days;
                                                            quarantine_retention_days =
                                                            v_quarantine_retention_days;
                                                            orphan_artifact_grace_seconds =
                                                            v_orphan_artifact_grace_seconds;
                                                            artifact_sweep_batch_size =
                                                            v_artifact_sweep_batch_size;
                                                            request_log_enabled =
                                                            v_request_log_enabled;
                                                            metrics_enabled = v_metrics_enabled;
                                                            readiness_min_free_disk_bytes =
                                                            v_readiness_min_free_disk_bytes;
                                                            bootstrap_admin_username =
                                                            coerce_str raw
                                                            (codes "BOOTSTRAP_ADMIN_USERNAME")
                                                            (codes "admin");
                                                            bootstrap_admin_password =
                                                            coerce_str raw
                                                            (codes "BOOTSTRAP_ADMIN_PASSWORD")
                                                            (codes "change-me-now");
                                                            session_cookie_name =
                                                            coerce_str raw
                                                            (codes "SESSION_COOKIE_NAME")
                                                            (codes "rapid_inbox_session");
                                                            host =
                                                            coerce_str raw (codes "HOST")
                                                            (codes "127.0.0.1");
                                                            smtp_host =
                                                            coerce_str raw (codes "SMTP_HOST")
                                                            (codes "127.0.0.1");
                                                            ingress_mode =
                                                            coerce_str raw (codes "INGRESS_MODE")
                                                            (codes "managed_only");
                                                            log_level =
                                                            coerce_str raw (codes "LOG_LEVEL")
                                                            (codes "INFO");
                                                            log_format =
                                                            coerce_str raw (codes "LOG_FORMAT")
                                                            (codes "json");
                                                            metrics_token =
                                                            coerce_str raw (codes "METRICS_TOKEN")
                                                            ([]);
                                                            api_cursor_secret =
                                                            coerce_str raw
                                                            (codes "API_CURSOR_SECRET") ([]);
                                                            admin_token =
                                                            coerce_str raw (codes "ADMIN_TOKEN")
                                                            (codes "dev-admin-token");
                                                            public_api_key =
                                                            coerce_str raw (codes "PUBLIC_API_KEY")
                                                            (codes "public-demo-key");
                                                            legacy_admin_token_enabled =
                                                            legacy_secret_enabled u
                                                            (coerce_str raw (codes "ADMIN_TOKEN")
                                                            default_admin_token)
                                                            default_admin_token;
                                                            legacy_public_api_key_enabled =
                                                            legacy_secret_enabled u
                                                            (coerce_str raw (codes "PUBLIC_API_KEY")
                                                            default_public_api_key)
                                                            default_public_api_key;
                                                            })

  unfoldable pub default_settings :
      Addresses → (Text → Text) → Environment → Result ConfigError Settings
  unfolding read_settings post_init
  default_settings addresses upper raw = read_settings raw >>= post_init u addresses upper
