-- ===== src/ApiKeys/AccessTests.antt =====
-- Runs of the checks of a key's record and of its token bucket, and their theorems at concrete inputs.
use rapid_inbox.Base.{
  Bool, Option, ℕ, ◌*◌, ◌-◌, ◌+◌, ◌≤◌, ◌≡◌, refl, true, false, none, some, List, [], ◌∷◌, arith,
  eqb, Text, codes, suc, length,
}
use rapid_inbox.Base.Result.{Result, ok, err}
use rapid_inbox.Permissions.Context.{PermissionContext, mode_all}
use rapid_inbox.ApiKeys.Plain.{KeyError, invalid_key, expired_key, split_max, parse_plain_text}
use rapid_inbox.ApiKeys.Record.{
  texts, Libraries, AuthenticationRecord, replace_z, check_transport, expiration_is_due,
  any_network, address_allowed, request_ip_allowed, validate_authentication_record,
  authenticate_plain_text,
}
use rapid_inbox.ApiKeys.Access.{LetsIn, authenticate_plain_text_sound}
use rapid_inbox.ApiKeys.Usage.{
  Bucket, Usage, take_token, get_entry, pop_entry, drop_oldest, persist_round, usage_round,
  record_usage, invalid_api_key, rate_limit_exceeded,
}
use rapid_inbox.ApiKeys.Cache.{
  CacheKey, Policy, AuthCache, trim_cache, keep_items, find_cached, pop_cached,
  cached_authentication_record, store_record, invalidate_key_cache,
}
use rapid_inbox.ApiKeys.Fresh.{
  Loaded, empty_cache, raise_floor, Run, started, stores, invalidates, AreFresh, Run-AreFresh,
}
use rapid_inbox.ApiKeys.Rate.{uses, Ascends, uses_bounded}

machine : Unit {0}
unfolding split_max parse_plain_text check_transport expiration_is_due replace_z any_network
    address_allowed request_ip_allowed validate_authentication_record authenticate_plain_text
machine = tt

-- Addresses are numbers, a network is one address, and a digest is the text itself.
abbrev libraries : Libraries
libraries = record {
  Address = ℕ;
  Network = ℕ;
  ip_address = λ s. some 7;
  ip_network = λ s. some 7;
  contains = eqb;
  loads = λ s. texts (s ∷ []);
  sha256 = λ s. s;
  fromisoformat = λ s. some (some 100);
  is_space = λ c. eqb c 32;
}

abbrev reader : PermissionContext
reader = record {
  scopes = codes "messages.read" ∷ [];
  domain_ids = [];
  mailbox_patterns = [];
  domain_grant_mode = mode_all;
  api_key_id = some 1;
  public_id = codes "k1";
  name = codes "reader";
  kind = codes "public";
  legacy_credential = false;
  rate_limit_per_min = 60;
  allowed_ip_cidrs = [];
  expires_at = some (codes "2030-01-01T00:00:00Z");
  allow_header = true;
  allow_query = false;
  admin_id = none;
  admin_session_id = none;
}

abbrev stored : AuthenticationRecord
stored = record {
  context = reader;
  secret_hash = codes "s_1";
  status = codes "active";
  allow_header = true;
  allow_query = false;
  rate_limit_per_min = 60;
  allowed_ip_cidrs = some (codes "192.0.2.0/24");
  expires_at = some (codes "2030-01-01T00:00:00Z");
}

abbrev find : Text → Text → Result KeyError AuthenticationRecord
find kind key_prefix = ok stored

let_in :
    authenticate_plain_text libraries find 50
      (codes "header")
      (some (codes "192.0.2.9"))
      (codes "ri_public_ab_s_1")
    ≡ ok reader
unfolding machine
let_in = refl

kept_out :
    (authenticate_plain_text libraries find 50 (codes "header") none (codes "ri_public_ab_s_2")
      ≡ err invalid_key)
    × (authenticate_plain_text libraries find 100 (codes "header") none (codes "ri_public_ab_s_1")
        ≡ err expired_key)
unfolding machine
kept_out = (refl, refl)

authenticate_plain_text_sound_example :
    (kind key_prefix secret : Text) × (r : AuthenticationRecord) × (parse_plain_text
        (codes "ri_public_ab_s_1")
      ≡ ok (kind, key_prefix, secret))
    × (find kind key_prefix ≡ ok r)
    × LetsIn libraries 50 (codes "header") (some (codes "192.0.2.9")) secret r
    × (reader ≡ r.context)
authenticate_plain_text_sound_example =
    authenticate_plain_text_sound libraries find 50 (codes "header") (some (codes "192.0.2.9"))
      (codes "ri_public_ab_s_1") reader let_in

-- Two uses a minute, of 60 ticks: the third use in a minute is refused.
abbrev fresh : Usage
fresh = record { usage_buckets = []; last_usage_persisted = [] }

abbrev u1 : Usage
u1 = (record_usage 60 30 2 100 7 (codes "active") true fresh).1

abbrev u2 : Usage
u2 = (record_usage 60 30 2 101 7 (codes "active") true u1).1

third_use :
    ((record_usage 60 30 2 102 7 (codes "active") true u2).0 ≡ err rate_limit_exceeded)
    × ((record_usage 60 30 2 140 7 (codes "active") true u2).0 ≡ ok true)
    × ((record_usage 60 30 2 110 7 (codes "revoked") true u2).0 ≡ err invalid_api_key)
unfolding record_usage usage_round take_token get_entry pop_entry drop_oldest persist_round
third_use = (refl, refl, refl)

abbrev full_bucket : Bucket
full_bucket = record { tokens = 120; last_refill = 100 }

abbrev times : List ℕ
times = 100 ∷ 101 ∷ 102 ∷ 140 ∷ []

three_of_four : (uses 60 2 times full_bucket).0 ≡ 3
unfolding uses take_token
three_of_four = refl

times_ascend : Ascends 100 times
times_ascend = (omega arith, (omega arith, (omega arith, (omega arith, tt))))

uses_bounded_example :
    ((uses 60 2 times full_bucket).1.tokens ≤ 2 * 60)
    × ((uses 60 2 times full_bucket).0 * 60
        ≤ 2 * 60 + ((uses 60 2 times full_bucket).1.last_refill - 100) * 2)
uses_bounded_example = uses_bounded 60 2 times full_bucket (omega arith) times_ascend

-- A record of key 7 is cached, key 7 is invalidated, a load that began before stores nothing, and a
-- later one does.
abbrev row : ℕ → Option ℕ
row r = some 7

abbrev unselected : ℕ → Bool
unselected r = false

abbrev policy : ℕ → Policy
policy r = record { rate_limit_per_min = r; allowed_ip_cidrs = none; status = codes "active" }

abbrev cache_key : CacheKey
cache_key = record { kind = codes "public"; key_prefix = codes "ab" }

abbrev id_of : Loaded ℕ → Option ℕ
id_of v = row v.stored

abbrev is_selected : Loaded ℕ → Bool
is_selected v = unselected v.stored

abbrev policy_of : Loaded ℕ → Policy
policy_of v = policy v.stored

abbrev k0 : AuthCache (Loaded ℕ)
k0 = empty_cache row unselected policy

abbrev k1 : AuthCache (Loaded ℕ)
k1 = store_record id_of is_selected policy_of 0 2 10 cache_key (record { stored = 1; began = 0 }) k0

abbrev k2 : AuthCache (Loaded ℕ)
k2 = invalidate_key_cache id_of is_selected policy_of 7 k1

abbrev k3 : AuthCache (Loaded ℕ)
k3 = store_record id_of is_selected policy_of 0 2 11 cache_key (record { stored = 1; began = 0 }) k2

abbrev k4 : AuthCache (Loaded ℕ)
k4 = store_record id_of is_selected policy_of 1 2 11 cache_key (record { stored = 2; began = 1 }) k3

cached_rows :
    (length k1.auth_cache ≡ 1)
    × (length k3.auth_cache ≡ 0)
    × ((cached_authentication_record 12 cache_key k4).0 ≡ some (record { stored = 2; began = 1 }))
    × ((cached_authentication_record 13 cache_key k4).0 ≡ none)
unfolding store_record invalidate_key_cache cached_authentication_record trim_cache keep_items
    pop_cached find_cached pop_entry
cached_rows = (refl, refl, refl, refl)

run4 : Run row unselected policy k4 (raise_floor 7 (suc k1.auth_cache_epoch) (λ _. 0))
run4 =
    stores 1 2 11 cache_key 2
      (stores 0 2 11 cache_key 1 (invalidates 7 (stores 0 2 10 cache_key 1 started)))

Run-AreFresh_example :
    AreFresh row unselected policy (raise_floor 7 (suc k1.auth_cache_epoch) (λ _. 0)) k4
Run-AreFresh_example =
    Run-AreFresh row unselected policy k4 (raise_floor 7 (suc k1.auth_cache_epoch) (λ _. 0)) run4
