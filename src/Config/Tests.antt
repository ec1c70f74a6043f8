-- ===== src/Config/Tests.antt =====
-- Tests of the configuration, and the example run of its theorem.
use rapid_inbox.Base.{
  pos, codes, Text, text_eq, ℕ, ◌+◌, ◌-◌, ◌≡◌, refl, ◌&&◌, none, some, [], ◌∷◌, ltb, leb, eqb,
  if◌then◌else◌, scan_digits, parse_int,
}
use rapid_inbox.Config.Check.{
  open_smtp, ConfigError, Addresses, invalid, validate_ranges, host_exposes_network, post_init,
}
use rapid_inbox.Base.Result.{Result, ok, err}
use rapid_inbox.Routing.Address.{Unicode}
use rapid_inbox.Config.Fields.{Settings}
use rapid_inbox.Config.Environment.{
  Environment, coerce_int, coerce_bool, read_settings, default_settings,
}
use rapid_inbox.Config.Valid.{IsValid}
use rapid_inbox.Config.Bounds.{default_settings-IsValid}

abbrev lower_char : ℕ → ℕ
lower_char c = if leb 65 c && leb c 90 then c + 32 else c

abbrev upper_char : ℕ → ℕ
upper_char c = if leb 97 c && leb c 122 then c - 32 else c

abbrev map_text : (ℕ → ℕ) → Text → Text
map_text f [] = []
map_text f (c ∷ s) = f c ∷ map_text f s

abbrev ascii : Unicode
ascii = record {
  lower = map_text lower_char;
  is_space = λ c. eqb c 32;
  is_other = λ c. ltb c 32;
  idna = λ s. some s;
}

abbrev upper : Text → Text
upper = map_text upper_char

abbrev addresses : Addresses
addresses = record { is_loopback = λ s. some (text_eq s (codes "127.0.0.1")) }

-- one variable, and the rest unset
abbrev only : Text → Text → Environment
only name value key = if text_eq key name then some value else none

abbrev configured : Result ConfigError Settings
configured =
    default_settings ascii addresses upper (only (codes "HTTP_CONCURRENCY_LIMIT") (codes " 2_000 "))

built_ok : (r : Settings) × (configured ≡ ok r)
unfolding default_settings read_settings coerce_int coerce_bool parse_int scan_digits post_init
    validate_ranges host_exposes_network
built_ok = (_, refl)

refused :
    (default_settings ascii addresses upper (only (codes "PORT") (codes "0"))
      ≡ err (invalid (codes "PORT")))
    × (default_settings ascii addresses upper (only (codes "PORT") (codes "http"))
        ≡ err (invalid (codes "PORT")))
unfolding default_settings read_settings coerce_int coerce_bool parse_int scan_digits post_init
    validate_ranges host_exposes_network
refused = (refl, refl)

-- A listener on every network address wants a limit on its connections, one with no address does not.
abbrev unlimited : Text → Environment
unlimited host key =
    if text_eq key (codes "SMTP_MAX_CONCURRENT_CONNECTIONS")
    then some (codes "0")
    else if text_eq key (codes "SMTP_HOST")
    then some host
    else none

empty_host :
    (default_settings ascii addresses upper (unlimited (codes "0.0.0.0")) ≡ err open_smtp)
    × (r : Settings) × (default_settings ascii addresses upper (unlimited []) ≡ ok r)
    × (r.smtp_max_concurrent_connections ≡ pos 0)
unfolding default_settings read_settings coerce_int coerce_bool parse_int scan_digits post_init
    validate_ranges host_exposes_network
empty_host = (refl, _, refl, refl)

default_settings-IsValid_example : IsValid ascii addresses built_ok.0
default_settings-IsValid_example =
    default_settings-IsValid ascii addresses upper
      (only (codes "HTTP_CONCURRENCY_LIMIT") (codes " 2_000 ")) built_ok.0 built_ok.1
