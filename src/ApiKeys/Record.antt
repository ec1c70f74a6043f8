-- ===== src/ApiKeys/Record.antt =====
-- The checks of a key's record in app/auth/api_keys.py. The libraries of addresses, JSON, digests and
-- dates are parameters. The texts of two UTC times, which the source compares, are in the order of the
-- times, which stand for them here.
use rapid_inbox.Base.{
  ℕ, Bool, true, false, not, Option, none, some, List, [], ◌∷◌, ◌++◌, leb, eqb, if◌then◌else◌, Text,
  codes, text_eq, strip_by,
}
use rapid_inbox.Base.Result.{Result, ok, err, ◌>>=◌, ◌>>◌}
use rapid_inbox.Permissions.Context.{PermissionContext}
use rapid_inbox.ApiKeys.Plain.{
  KeyError, inactive_key, invalid_key, header_disabled, query_disabled, expired_key, ip_denied,
  invalid_transport, parse_plain_text,
}

-- what `json.loads` returns for a list of networks: an error, a text, a list as the texts of its
-- members, or something else
pub data Decoded : Type 0 where
  undecodable : Decoded
  one_text : Text → Decoded
  texts : List Text → Decoded
  other_value : Decoded

-- `ipaddress`, `json`, `hashlib`, `datetime.fromisoformat` (an error, a time without a zone, or the
-- seconds of a UTC time), and the space test of `str.strip`
pub record Libraries : Type 1 where
  pub Address : Type 0
  pub Network : Type 0
  pub ip_address : Text → Option Address
  pub ip_network : Text → Option Network
  pub contains : Network → Address → Bool
  pub loads : Text → Decoded
  pub sha256 : Text → Text
  pub fromisoformat : Text → Option (Option ℕ)
  pub is_space : ℕ → Bool

pub record AuthenticationRecord : Type 0 where
  pub context : PermissionContext
  pub secret_hash : Text
  pub status : Text
  pub allow_header : Bool
  pub allow_query : Bool
  pub rate_limit_per_min : ℕ
  pub allowed_ip_cidrs : Option Text
  pub expires_at : Option Text

-- `text.replace("Z", "+00:00")`
unfoldable pub replace_z : Text → Text
replace_z [] = []
replace_z (c ∷ s) = let rest = replace_z s in if eqb c 90 then codes "+00:00" ++ rest else c ∷ rest

abbrev pub require_key : Bool → KeyError → Result KeyError (Unit {0})
require_key true e = ok tt
require_key false e = err e

-- the test of `transport`
unfoldable pub check_transport : Text → AuthenticationRecord → Result KeyError (Unit {0})
check_transport transport r =
    if text_eq transport (codes "header")
    then require_key r.allow_header header_disabled
    else if text_eq transport (codes "query")
    then require_key r.allow_query query_disabled
    else err invalid_transport

module _ (lib : Libraries) where
  open lib use {
    Address, Network, ip_address, ip_network, contains, loads, sha256, fromisoformat, is_space,
  }

  -- `_normalize_expiration`: an error is none
  abbrev pub zoned : Option (Option ℕ) → Option (Option ℕ)
  zoned none = none
  zoned (some none) = none
  zoned (some (some t)) = some (some t)

  abbrev pub normalize_text : Text → Option (Option ℕ)
  normalize_text [] = some none
  normalize_text (c ∷ s) = zoned (fromisoformat (replace_z (c ∷ s)))

  abbrev pub is_due_at : ℕ → Option (Option ℕ) → Bool
  is_due_at now none = true
  is_due_at now (some none) = false
  is_due_at now (some (some t)) = leb t now

  -- `_expiration_is_due`
  unfoldable pub expiration_is_due : ℕ → Option Text → Bool
  unfolding replace_z
  expiration_is_due now none = false
  expiration_is_due now (some []) = false
  expiration_is_due now (some (c ∷ s)) = is_due_at now (normalize_text (strip_by is_space (c ∷ s)))

  abbrev pub network_round : Address → Option Network → Bool → Bool
  network_round a none rest = false
  network_round a (some n) rest = if contains n a then true else rest

  -- the loop over the networks, which a malformed one ends
  unfoldable pub any_network : Address → List Text → Bool
  any_network a [] = false
  any_network a (cidr ∷ cidrs) =
      let rest = any_network a cidrs in network_round a (ip_network cidr) rest

  unfoldable pub address_allowed : Address → Decoded → Bool
  unfolding any_network
  address_allowed a undecodable = false
  address_allowed a (one_text s) = any_network a (s ∷ [])
  address_allowed a (texts []) = true
  address_allowed a (texts (s ∷ cidrs)) = any_network a (s ∷ cidrs)
  address_allowed a other_value = false

  abbrev pub parsed_allowed : Option Address → Text → Bool
  parsed_allowed none raw = false
  parsed_allowed (some a) raw = address_allowed a (loads raw)

  -- `_request_ip_allowed`
  unfoldable pub request_ip_allowed : Option Text → Option Text → Bool
  unfolding address_allowed
  request_ip_allowed ip none = true
  request_ip_allowed ip (some []) = true
  request_ip_allowed none (some (c ∷ raw)) = false
  request_ip_allowed (some ip) (some (c ∷ raw)) = parsed_allowed (ip_address ip) (c ∷ raw)

  abbrev pub known_ip_allowed : Option Text → Option Text → Bool
  known_ip_allowed none cidrs = true
  known_ip_allowed (some ip) cidrs = request_ip_allowed (some ip) cidrs

  -- `_validate_authentication_record`
  unfoldable pub validate_authentication_record :
      ℕ → Text → Option Text → Text → AuthenticationRecord → Result KeyError PermissionContext
  unfolding check_transport expiration_is_due request_ip_allowed
  validate_authentication_record now transport request_ip secret r =
      require_key (text_eq (sha256 secret) r.secret_hash) invalid_key
      >> (require_key (text_eq r.status (codes "active")) inactive_key
          >> (check_transport transport r
              >> (require_key (not (expiration_is_due now r.expires_at)) expired_key
                  >> (require_key (known_ip_allowed request_ip r.allowed_ip_cidrs) ip_denied
                      >>= λ _. ok r.context))))

  -- `_authenticate_plain_text`; `find` is `_get_authentication_record`, by kind and prefix
  unfoldable pub authenticate_plain_text :
      (Text → Text → Result KeyError AuthenticationRecord)
      → ℕ
      → Text
      → Option Text
      → Text
      → Result KeyError PermissionContext
  unfolding validate_authentication_record parse_plain_text
  authenticate_plain_text find now transport request_ip plain = parse_plain_text plain >>= λ parts.
      find parts.0 parts.1 >>= λ r.
      validate_authentication_record now transport request_ip parts.2 r
