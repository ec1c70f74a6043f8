-- ===== src/Config/Ranges.antt =====
-- The numbers that the checks of app/config.py let through, each with its bounds.
use rapid_inbox.Base.{
  negsuc, pos, ℤ, ℕ, ◌≡◌, refl, inl, inr, true, List, [], ◌∷◌, arith, All, Bool-cases,
}
use rapid_inbox.Config.Check.{ConfigError, is_within, validate_ranges, int_le, invalid}
use rapid_inbox.Base.Result.{Result, ok, err}
use rapid_inbox.Config.Fields.{
  Settings, Range, http_ranges, database_ranges, smtp_ranges, parse_ranges, preview_ranges,
  disk_ranges, retention_ranges,
}
use rapid_inbox.Config.Valid.{
  Between, FitsIn, HttpBounds, DatabaseBounds, SmtpBounds, ParseBounds, PreviewBounds, DiskBounds,
  RetentionBounds,
}

abbrev pub InRange : Range → Type 0
InRange r = Between r.minimum r.maximum r.value

is_within-Between : (lo hi : ℕ) (i : ℤ) → is_within lo hi i ≡ true → Between lo hi i
is_within-Between lo hi (negsuc n) h = cc
is_within-Between lo hi (pos n) h = (n, refl, ground arith, ground arith)

pub Between-FitsIn :
    {a b c d : ℕ} (i j : ℤ) → Between a b i → Between c d j → int_le i j ≡ true → FitsIn i j
Between-FitsIn i j (m, e, _, _) (n, f, _, _) h = (m, n, e, f, ground (arith, h, e, f))

abbrev passed : Result ConfigError (Unit {0})
passed = ok tt

not_passed : (e : ConfigError) → err e ≡ passed → ⊥
not_passed e h = cc

pub validate_ranges-ok : (ranges : List Range) → validate_ranges ranges ≡ ok tt → All InRange ranges
unfolding validate_ranges
validate_ranges-ok [] h = tt
validate_ranges-ok (r ∷ ranges) h = elim (Bool-cases (is_within r.minimum r.maximum r.value)) [
  | inl inside ↦ (
    is_within-Between r.minimum r.maximum r.value inside,
    validate_ranges-ok ranges (rw inside at h),
  )
  | inr outside ↦ absurd (not_passed (invalid r.key) (rw outside at h))
]

pub HttpBounds-of : (s : Settings) → All InRange (http_ranges s) → HttpBounds s
HttpBounds-of s h = record {
  port = h.0;
  http_max_request_body_bytes = h.1.0;
  http_live_connection_limit = h.1.1.0;
  http_request_body_timeout_seconds = h.1.1.1.0;
  http_concurrency_limit = h.1.1.1.1.0;
  http_body_memory_budget_bytes = h.1.1.1.1.1.0;
}

pub DatabaseBounds-of : (s : Settings) → All InRange (database_ranges s) → DatabaseBounds s
DatabaseBounds-of s h = record {
  database_write_queue_capacity = h.0;
  database_write_max_waiters = h.1.0;
  database_read_pool_size = h.1.1.0;
  database_read_queue_capacity = h.1.1.1.0;
  database_read_max_waiters = h.1.1.1.1.0;
}

pub SmtpBounds-of : (s : Settings) → All InRange (smtp_ranges s) → SmtpBounds s
SmtpBounds-of s h = record {
  database_read_timeout_seconds = h.0;
  smtp_port = h.1.0;
  max_message_size_bytes = h.1.1.0;
  max_recipients_per_message = h.1.1.1.0;
  smtp_idle_timeout_seconds = h.1.1.1.1.0;
  smtp_max_concurrent_connections = h.1.1.1.1.1.0;
  smtp_connection_rate_limit_count = h.1.1.1.1.1.1.0;
  smtp_connection_rate_limit_window_seconds = h.1.1.1.1.1.1.1.0;
}

pub ParseBounds-of : (s : Settings) → All InRange (parse_ranges s) → ParseBounds s
ParseBounds-of s h = record {
  parse_worker_count = h.0;
  parse_queue_max_messages = h.1.0;
  parse_queue_max_bytes = h.1.1.0;
}

pub PreviewBounds-of : (s : Settings) → All InRange (preview_ranges s) → PreviewBounds s
PreviewBounds-of s h = record {
  message_preview_body_bytes = h.0;
  message_preview_headers_bytes = h.1.0;
  message_preview_inline_item_bytes = h.1.1.0;
  message_preview_inline_total_bytes = h.1.1.1.0;
}

pub DiskBounds-of : (s : Settings) → All InRange (disk_ranges s) → DiskBounds s
DiskBounds-of s h = record { disk_warning_threshold_percent = h.0 }

pub RetentionBounds-of : (s : Settings) → All InRange (retention_ranges s) → RetentionBounds s
RetentionBounds-of s h = record {
  catch_all_retention_days = h.0;
  retention_cleanup_interval_seconds = h.1.0;
  smtp_session_retention_seconds = h.1.1.0;
  empty_mailbox_retention_seconds = h.1.1.1.0;
  metric_retention_seconds = h.1.1.1.1.0;
  audit_retention_days = h.1.1.1.1.1.0;
  cleanup_batch_size = h.1.1.1.1.1.1.0;
  file_gc_batch_size = h.1.1.1.1.1.1.1.0;
  maintenance_run_retention_days = h.1.1.1.1.1.1.1.1.0;
  quarantine_retention_days = h.1.1.1.1.1.1.1.1.1.0;
  orphan_artifact_grace_seconds = h.1.1.1.1.1.1.1.1.1.1.0;
  artifact_sweep_batch_size = h.1.1.1.1.1.1.1.1.1.1.1.0;
}
