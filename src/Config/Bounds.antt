-- ===== src/Config/Bounds.antt =====
-- What holds of every configuration that app/config.py builds.
use rapid_inbox.Base.{
  Option-cases, ◌≤◌, length, text_eq_iff, ap, ◌⊎◌, negsuc, codes, pos, eqb, strip_by, ◌||◌, ℤ, ℕ,
  subst, text_eq, Text, ◌≡◌, refl, inl, inr, Bool, true, false, ◌&&◌, [], ◌∷◌, arith, any, All,
}
use rapid_inbox.Config.Check.{
  host_exposes_network, ConfigError, require, int_le, Addresses, legacy_secret_enabled,
  default_admin_token, default_public_api_key, normalize_texts, log_levels, is_mode,
  cursor_secret_ok, check_texts, safe_smtp, check_rest, post_init,
}
use rapid_inbox.Base.Result.{ok, >>-ok, >>=-ok_cases}
use rapid_inbox.Routing.Address.{Unicode}
use rapid_inbox.Config.Fields.{
  Settings, http_ranges, database_ranges, smtp_ranges, parse_ranges, preview_ranges, disk_ranges,
  retention_ranges,
}
use rapid_inbox.Config.Valid.{IsLocal, IsSecret, IsValid}
use rapid_inbox.Config.Ranges.{
  InRange, validate_ranges-ok, Between-FitsIn, HttpBounds-of, DatabaseBounds-of, SmtpBounds-of,
  ParseBounds-of, PreviewBounds-of, DiskBounds-of, RetentionBounds-of,
}
use rapid_inbox.Config.Environment.{Environment, read_settings, default_settings}

require-ok : (b : Bool) (e : ConfigError) → require b e ≡ ok tt → b ≡ true
require-ok true e h = refl
require-ok false e h = cc

-- The conditions on the texts and on the free space.
abbrev TextsHold : Settings → Type 0
TextsHold s =
    (any (text_eq s.log_level) log_levels ≡ true)
    × ((text_eq s.log_format (codes "json") || text_eq s.log_format (codes "text")) ≡ true)
    × (cursor_secret_ok s.api_cursor_secret ≡ true)
    × (int_le (pos 0) s.readiness_min_free_disk_bytes ≡ true)
    × (is_mode s.ingress_mode ≡ true)

check_texts-ok : (s : Settings) → check_texts s ≡ ok tt → TextsHold s
check_texts-ok s h =
    let (level, h1) = >>-ok _ _ h in
    let (format, h2) = >>-ok _ _ h1 in
    let (secret, h3) = >>-ok _ _ h2 in
    let (free, mode) = >>-ok _ _ h3 in
    (
      require-ok _ _ level,
      require-ok _ _ format,
      require-ok _ _ secret,
      require-ok _ _ free,
      require-ok _ _ mode,
    )

or_text_eq : (s a b : Text) → (text_eq s a || text_eq s b) ≡ true → (s ≡ a) ⊎ (s ≡ b)
or_text_eq s a b h = ground (arith, text_eq_iff s a, text_eq_iff s b)

log_level-cases :
    (s : Text)
    → any (text_eq s) log_levels ≡ true
    → (s ≡ codes "CRITICAL")
      ⊎ (s ≡ codes "ERROR")
      ⊎ (s ≡ codes "WARNING")
      ⊎ (s ≡ codes "INFO")
      ⊎ (s ≡ codes "DEBUG")
log_level-cases s h = ground (
  arith,
  text_eq_iff s (codes "CRITICAL"),
  text_eq_iff s (codes "ERROR"),
  text_eq_iff s (codes "WARNING"),
  text_eq_iff s (codes "INFO"),
  text_eq_iff s (codes "DEBUG"),
)

cursor_secret-cases : (s : Text) → cursor_secret_ok s ≡ true → (s ≡ []) ⊎ (32 ≤ length s)
cursor_secret-cases [] h = inl refl
cursor_secret-cases (c ∷ s) h = inr (ground arith)

not_negative : (i : ℤ) → int_le (pos 0) i ≡ true → (n : ℕ) × (i ≡ pos n)
not_negative (pos n) h = (n, refl)
not_negative (negsuc n) h = cc

check_rest-ok :
    (s r : Settings)
    → check_rest s ≡ ok r
    → TextsHold s × All InRange (retention_ranges s) × (s ≡ r)
check_rest-ok s r h =
    let (texts, h1) = >>-ok _ _ h in
    let (ranges, same) = >>-ok _ _ h1 in
    (check_texts-ok s texts, validate_ranges-ok (retention_ranges s) ranges, cc)

and-left : (a b : Bool) → (a && b) ≡ true → b ≡ true
and-left a b h = ground arith

nil-length : (s : Text) → eqb (length s) 0 ≡ true → s ≡ []
nil-length [] h = refl
nil-length (c ∷ s) h = ground arith

module _ (u : Unicode) (addresses : Addresses) (upper : Text → Text) where
  enabled-IsSecret :
      (secret published : Text)
      → legacy_secret_enabled u secret published ≡ true
      → IsSecret u published secret
  enabled-IsSecret secret published h =
      let stripped = strip_by u.is_space secret in
      (
        λ e. ground (arith, ap length e, h),
        λ e. ground (arith, (text_eq_iff stripped published).1 e, h),
      )

  hidden-IsLocal :
      (host : Text) → host_exposes_network u addresses host ≡ false → IsLocal u addresses host
  unfolding host_exposes_network
  hidden-IsLocal host h =
      let name = u.lower (strip_by (λ c. eqb c 91 || eqb c 93) (strip_by u.is_space host)) in
      ground (
        arith,
        nil-length name,
        text_eq_iff name (codes "localhost"),
        Option-cases (addresses.is_loopback name),
      )

  safe_smtp-limit :
      (s : Settings)
      → safe_smtp u addresses s ≡ true
      → s.smtp_max_concurrent_connections ≡ pos 0
      → IsLocal u addresses s.smtp_host
  safe_smtp-limit s h e = hidden-IsLocal s.smtp_host (ground (arith, h, e))

  post_init-IsValid :
      (s r : Settings) → post_init u addresses upper s ≡ ok r → IsValid u addresses r
  unfolding post_init
  post_init-IsValid s r h =
      let (http, h1) = >>-ok _ _ h in
      let (body, h2) = >>-ok _ _ h1 in
      let (database, h3) = >>-ok _ _ h2 in
      let (queue, h4) = >>-ok _ _ h3 in
      let (smtp, h5) = >>-ok _ _ h4 in
      let (safe, h6) = >>-ok _ _ h5 in
      let (parse, h7) = >>-ok _ _ h6 in
      let (budget, h8) = >>-ok _ _ h7 in
      let (preview, h9) = >>-ok _ _ h8 in
      let (item, h10) = >>-ok _ _ h9 in
      let (disk, h11) = >>-ok _ _ h10 in
      let (texts, ranges, same) = check_rest-ok (normalize_texts u upper s) r h11 in
      let (level, format, secret, free, mode) = texts in
      let t = normalize_texts u upper s in
      let http_bounds = HttpBounds-of t (validate_ranges-ok (http_ranges s) http) in
      let database_bounds = DatabaseBounds-of t (validate_ranges-ok (database_ranges s) database) in
      let smtp_bounds = SmtpBounds-of t (validate_ranges-ok (smtp_ranges s) smtp) in
      let parse_bounds = ParseBounds-of t (validate_ranges-ok (parse_ranges s) parse) in
      let preview_bounds = PreviewBounds-of t (validate_ranges-ok (preview_ranges s) preview) in
      let disk_bounds = DiskBounds-of t (validate_ranges-ok (disk_ranges s) disk) in
      subst (IsValid u addresses) same (record {
        http = http_bounds;
        database = database_bounds;
        smtp = smtp_bounds;
        parse = parse_bounds;
        preview = preview_bounds;
        disk = disk_bounds;
        retention = RetentionBounds-of (normalize_texts u upper s) ranges;
        min_free = not_negative s.readiness_min_free_disk_bytes free;
        body_budget =
            Between-FitsIn _ _ http_bounds.http_max_request_body_bytes
              http_bounds.http_body_memory_budget_bytes (require-ok _ _ body);
        read_queue =
            Between-FitsIn _ _ database_bounds.database_read_pool_size
              database_bounds.database_read_queue_capacity (require-ok _ _ queue);
        parse_budget =
            Between-FitsIn _ _ smtp_bounds.max_message_size_bytes parse_bounds.parse_queue_max_bytes
              (require-ok _ _ budget);
        preview_item =
            Between-FitsIn _ _ preview_bounds.message_preview_inline_item_bytes
              preview_bounds.message_preview_inline_total_bytes (require-ok _ _ item);
        smtp_limit = safe_smtp-limit s (require-ok _ _ safe);
        log_level = log_level-cases _ level;
        log_format = or_text_eq _ _ _ format;
        cursor_secret = cursor_secret-cases _ secret;
        mode = or_text_eq _ _ _ mode;
        admin_token = λ e.
            enabled-IsSecret s.admin_token default_admin_token
              (and-left s.legacy_admin_token_enabled _ e);
        public_key = λ e.
            enabled-IsSecret s.public_api_key default_public_api_key
              (and-left s.legacy_public_api_key_enabled _ e);
      })

  -- Whatever the environment says, a configuration that is built is valid: each number lies
  -- within its bounds; a request fits in the body budget, the pool in its queue, a message in the
  -- parse queue and an inline part in their total; SMTP connections are unlimited only for a host
  -- that is empty, "localhost" or a loopback address; level, format and mode are known words; a
  -- cursor secret is empty or has 32 characters; and an enabled legacy secret is neither blank
  -- nor the published one.
  pub default_settings-IsValid :
      (raw : Environment) (r : Settings)
      → default_settings u addresses upper raw ≡ ok r
      → IsValid u addresses r
  unfolding default_settings
  default_settings-IsValid raw r h =
      let (s, _, built) = >>=-ok_cases (read_settings u raw) (post_init u addresses upper) h in
      post_init-IsValid s r built
