-- ===== src/Config/Check.antt =====
-- `__post_init__` of Settings in app/config.py.
use rapid_inbox.Base.{
  codes, pos, strip_by, negsuc, Text, text_eq, ℤ, ℕ, Bool, true, false, not, ◌&&◌, ◌||◌, Option,
  none, some, List, [], ◌∷◌, length, any, leb, eqb, if◌then◌else◌,
}
use rapid_inbox.Base.Result.{Result, ok, err, ◌>>◌}
use rapid_inbox.Routing.Address.{Unicode}
use rapid_inbox.Config.Fields.{
  Settings, Range, http_ranges, database_ranges, smtp_ranges, parse_ranges, preview_ranges,
  disk_ranges, retention_ranges,
}

-- The ValueErrors: a value out of its range, and the conditions between values.
pub data ConfigError : Type 0 where
  invalid : Text → ConfigError
  small_body_budget small_read_queue open_smtp small_parse_budget large_preview_item : ConfigError
  short_cursor_secret : ConfigError

abbrev pub default_bootstrap_admin_password : Text
default_bootstrap_admin_password = codes "change-me-now"

abbrev pub default_admin_token : Text
default_admin_token = codes "dev-admin-token"

abbrev pub default_public_api_key : Text
default_public_api_key = codes "public-demo-key"

abbrev pub is_within : ℕ → ℕ → ℤ → Bool
is_within minimum maximum (negsuc n) = false
is_within minimum maximum (pos n) = leb minimum n && leb n maximum

-- `_validate_integer_range` of each in turn
unfoldable pub validate_ranges : List Range → Result ConfigError (Unit {0})
validate_ranges [] = ok tt
validate_ranges (r ∷ ranges) =
    let rest = validate_ranges ranges in
    if is_within r.minimum r.maximum r.value then rest else err (invalid r.key)

abbrev pub require : Bool → ConfigError → Result ConfigError (Unit {0})
require true e = ok tt
require false e = err e

-- `a <= b`
abbrev pub int_le : ℤ → ℤ → Bool
int_le (pos m) (pos n) = leb m n
int_le (negsuc m) (pos n) = true
int_le (pos m) (negsuc n) = false
int_le (negsuc m) (negsuc n) = leb n m

abbrev pub is_zero : ℤ → Bool
is_zero (pos n) = eqb n 0
is_zero (negsuc n) = false

abbrev pub or_else : Text → Text → Text
or_else default [] = default
or_else default (c ∷ s) = c ∷ s

-- `ipaddress.ip_address(…).is_loopback`, or `none` where it raises ValueError
pub record Addresses : Type 0 where
  pub is_loopback : Text → Option Bool

abbrev exposed : Option Bool → Bool
exposed none = true
exposed (some loopback) = not loopback

abbrev pub log_levels : List Text
log_levels = codes "CRITICAL" ∷ codes "ERROR" ∷ codes "WARNING" ∷ codes "INFO" ∷ codes "DEBUG" ∷ []

abbrev pub is_mode : Text → Bool
is_mode m = text_eq m (codes "managed_only") || text_eq m (codes "managed_plus_catchall")

abbrev pub cursor_secret_ok : Text → Bool
cursor_secret_ok secret = eqb (length secret) 0 || leb 32 (length secret)

abbrev pub check_texts : Settings → Result ConfigError (Unit {0})
check_texts s =
    require (any (text_eq s.log_level) log_levels) (invalid (codes "LOG_LEVEL"))
    >> (require (text_eq s.log_format (codes "json") || text_eq s.log_format (codes "text"))
          (invalid (codes "LOG_FORMAT"))
        >> (require (cursor_secret_ok s.api_cursor_secret) short_cursor_secret
            >> (require (int_le (pos 0) s.readiness_min_free_disk_bytes)
                  (invalid (codes "READINESS_MIN_FREE_DISK_BYTES"))
                >> require (is_mode s.ingress_mode) (invalid (codes "INGRESS_MODE")))))

-- the rest of `__post_init__`, once the texts are in their normal form
abbrev pub check_rest : Settings → Result ConfigError Settings
check_rest s = check_texts s >> (validate_ranges (retention_ranges s) >> ok s)

module _ (u : Unicode) where
  open u use {lower, is_space}

  -- `_host_exposes_network`
  unfoldable pub host_exposes_network : Addresses → Text → Bool
  host_exposes_network addresses host =
      let normalized = lower (strip_by (λ c. eqb c 91 || eqb c 93) (strip_by is_space host)) in
      if eqb (length normalized) 0 || text_eq normalized (codes "localhost")
      then false
      else exposed (addresses.is_loopback normalized)

  -- `_legacy_secret_enabled`
  abbrev pub legacy_secret_enabled : Text → Text → Bool
  legacy_secret_enabled value default =
      let stripped = strip_by is_space value in
      not (eqb (length stripped) 0) && not (text_eq stripped default)

  -- the texts of `__post_init__`, put into their normal form; `upper` is `str.upper`
  abbrev pub normalize_texts : (Text → Text) → Settings → Settings
  normalize_texts upper s = record s {
    legacy_admin_token_enabled =
        s.legacy_admin_token_enabled && legacy_secret_enabled s.admin_token default_admin_token;
    legacy_public_api_key_enabled =
        s.legacy_public_api_key_enabled
        && legacy_secret_enabled s.public_api_key default_public_api_key;
    log_level = or_else (codes "INFO") (upper (strip_by is_space s.log_level));
    log_format = or_else (codes "json") (lower (strip_by is_space s.log_format));
    metrics_token = strip_by is_space s.metrics_token;
    api_cursor_secret = strip_by is_space s.api_cursor_secret;
    ingress_mode = or_else (codes "managed_only") (lower (strip_by is_space s.ingress_mode));
  }

  abbrev pub safe_smtp : Addresses → Settings → Bool
  safe_smtp addresses s =
      not (host_exposes_network addresses s.smtp_host && is_zero s.smtp_max_concurrent_connections)

  unfoldable pub post_init : Addresses → (Text → Text) → Settings → Result ConfigError Settings
  unfolding validate_ranges host_exposes_network
  post_init addresses upper s =
      validate_ranges (http_ranges s)
      >> (require (int_le s.http_max_request_body_bytes s.http_body_memory_budget_bytes)
            small_body_budget
          >> (validate_ranges (database_ranges s)
              >> (require (int_le s.database_read_pool_size s.database_read_queue_capacity)
                    small_read_queue
                  >> (validate_ranges (smtp_ranges s)
                      >> (require (safe_smtp addresses s) open_smtp
                          >> (validate_ranges (parse_ranges s)
                              >> (require (int_le s.max_message_size_bytes s.parse_queue_max_bytes)
                                    small_parse_budget
                                  >> (validate_ranges (preview_ranges s)
                                      >> (require
                                            (int_le s.message_preview_inline_item_bytes
                                              s.message_preview_inline_total_bytes)
                                            large_preview_item
                                          >> (validate_ranges (disk_ranges s)
                                              >> check_rest (normalize_texts upper s)))))))))))

  -- `insecure_runtime_defaults`: the names of what is still at an insecure default
  abbrev when_insecure : Bool → Text → List Text → List Text
  when_insecure true name findings = name ∷ findings
  when_insecure false name findings = findings

  unfoldable pub insecure_runtime_defaults : Bool → Settings → List Text
  insecure_runtime_defaults bootstrap_admin_pending s =
      when_insecure
        (bootstrap_admin_pending
          && text_eq s.bootstrap_admin_password default_bootstrap_admin_password)
        (codes "BOOTSTRAP_ADMIN_PASSWORD")
        (when_insecure (s.legacy_admin_token_enabled && text_eq s.admin_token default_admin_token)
          (codes "ADMIN_TOKEN")
          (when_insecure
            (s.legacy_public_api_key_enabled && text_eq s.public_api_key default_public_api_key)
            (codes "PUBLIC_API_KEY")
            (when_insecure (eqb (length s.api_cursor_secret) 0) (codes "API_CURSOR_SECRET") (
              when_insecure
                (s.metrics_enabled && eqb (length (strip_by is_space s.metrics_token)) 0)
                (codes "METRICS_TOKEN") []))))
