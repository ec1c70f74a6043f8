-- ===== src/ApiKeys/Cache.antt =====
-- The caches of app/auth/api_keys.py: `_get_authentication_record` before and after its load,
-- `_cached_authentication_record`, `_cached_usage_policy`, `_store_usage_policy` and
-- `_invalidate_key_cache`. A record is any type with the key's id and whether its domains are selected.
use rapid_inbox.Base.{
  ℕ, suc, ◌+◌, Bool, true, false, not, ◌&&◌, Option, none, some, List, [], ◌∷◌, ◌++◌, length, ltb,
  leb, eqb, if◌then◌else◌, Text, text_eq,
}
use rapid_inbox.ApiKeys.Usage.{get_entry, pop_entry, put_entry}

abbrev pub auth_cache_max_entries : ℕ
auth_cache_max_entries = 4096

pub record CacheKey : Type 0 where
  pub kind : Text
  pub key_prefix : Text

abbrev pub same_cache_key : CacheKey → CacheKey → Bool
same_cache_key a b = text_eq a.kind b.kind && text_eq a.key_prefix b.key_prefix

-- `(rate_limit_per_min, allowed_ip_cidrs, status)`
pub record Policy : Type 0 where
  pub rate_limit_per_min : ℕ
  pub allowed_ip_cidrs : Option Text
  pub status : Text

pub record Entry (V : Type 0) : Type 0 where
  pub key : CacheKey
  pub expires_at : ℕ
  pub value : V

abbrev pub Policies : Type 0
Policies = List (ℕ × (ℕ × Policy))

pub record AuthCache (V : Type 0) : Type 0 where
  pub auth_cache_epoch : ℕ
  pub auth_cache : List (Entry V)
  pub usage_policy_cache : Policies

abbrev pub is_epoch : Option ℕ → ℕ → Bool
is_epoch none epoch = true
is_epoch (some expected) epoch = eqb expected epoch

-- `while len(entries) > AUTH_CACHE_MAX_ENTRIES: entries.popitem(last=False)`
unfoldable pub trim_cache : {A : Type 0} → List A → List A
trim_cache [] = []
trim_cache (e ∷ entries) =
    let rest = trim_cache entries in
    if ltb auth_cache_max_entries (length (e ∷ entries)) then rest else e ∷ entries

-- the items that pass a test
unfoldable pub keep_items : {A : Type 0} → (A → Bool) → List A → List A
keep_items keeps [] = []
keep_items keeps (e ∷ entries) =
    let rest = keep_items keeps entries in if keeps e then e ∷ rest else rest

module _ {V : Type 0} where
  unfoldable pub find_cached : CacheKey → List (Entry V) → Option (Entry V)
  find_cached key [] = none
  find_cached key (e ∷ entries) =
      let later = find_cached key entries in if same_cache_key key e.key then some e else later

  unfoldable pub pop_cached : CacheKey → List (Entry V) → List (Entry V)
  pop_cached key [] = []
  pop_cached key (e ∷ entries) =
      let rest = pop_cached key entries in if same_cache_key key e.key then entries else e ∷ rest

  abbrev pub with_auth : List (Entry V) → AuthCache V → AuthCache V
  with_auth entries c = record c { auth_cache = entries }

  -- an entry that is found: moved to the end, or dropped when it has expired
  abbrev pub serve_cached : ℕ → CacheKey → Option (Entry V) → AuthCache V → Option V × AuthCache V
  serve_cached now key none c = (none, c)
  serve_cached now key (some e) c =
      if ltb now e.expires_at
      then (some e.value, with_auth (pop_cached key c.auth_cache ++ e ∷ []) c)
      else (none, with_auth (pop_cached key c.auth_cache) c)

  -- `_cached_authentication_record`
  unfoldable pub cached_authentication_record : ℕ → CacheKey → AuthCache V → Option V × AuthCache V
  unfolding find_cached pop_cached
  cached_authentication_record now key c = serve_cached now key (find_cached key c.auth_cache) c

  module _ (id_of : V → Option ℕ) (is_selected : V → Bool) (policy_of : V → Policy) where
    abbrev pub store_entry : ℕ → CacheKey → V → List (Entry V) → List (Entry V)
    store_entry expires key v entries =
        if is_selected v
        then entries
        else trim_cache
            (pop_cached key entries ++ record { key = key; expires_at = expires; value = v } ∷ [])

    abbrev pub store_policy : ℕ → Option ℕ → V → Policies → Policies
    store_policy expires none v policies = policies
    store_policy expires (some id) v policies =
        trim_cache (put_entry id (expires, policy_of v) policies)

    -- the second locked section of `_get_authentication_record`; `ttl` is AUTH_CACHE_TTL_SECONDS in ticks
    unfoldable pub store_record :
        (load_epoch ttl now : ℕ) → CacheKey → V → AuthCache V → AuthCache V
    unfolding trim_cache keep_items pop_cached pop_entry
    store_record load_epoch ttl now key v c =
        if eqb load_epoch c.auth_cache_epoch
        then (record c {
          auth_cache = store_entry (now + ttl) key v c.auth_cache;
          usage_policy_cache =
              store_policy (now + ttl) (id_of v) v
                (keep_items (λ item. ltb now item.1.0) c.usage_policy_cache);
        })
        else c

    abbrev pub has_key_id : ℕ → Option ℕ → Bool
    has_key_id id none = false
    has_key_id id (some k) = eqb k id

    -- `_invalidate_key_cache`, without the buckets
    unfoldable pub invalidate_key_cache : ℕ → AuthCache V → AuthCache V
    unfolding keep_items pop_entry
    invalidate_key_cache id c = record {
      auth_cache_epoch = suc c.auth_cache_epoch;
      auth_cache = keep_items (λ e. not (has_key_id id (id_of e.value))) c.auth_cache;
      usage_policy_cache = pop_entry id c.usage_policy_cache;
    }

  abbrev pub serve_policy : ℕ → ℕ → Option (ℕ × Policy) → AuthCache V → Option Policy × AuthCache V
  serve_policy now id none c = (none, c)
  serve_policy now id (some (expires, policy)) c =
      if leb expires now
      then (none, record c { usage_policy_cache = pop_entry id c.usage_policy_cache })
      else (
        some policy,
        record c { usage_policy_cache = put_entry id (expires, policy) c.usage_policy_cache },
      )

  -- `_cached_usage_policy`
  unfoldable pub cached_usage_policy : ℕ → ℕ → AuthCache V → Option Policy × AuthCache V
  unfolding get_entry pop_entry
  cached_usage_policy now id c = serve_policy now id (get_entry id c.usage_policy_cache) c

  -- `_store_usage_policy`
  unfoldable pub store_usage_policy :
      Option ℕ → (ttl now id : ℕ) → Policy → AuthCache V → AuthCache V
  unfolding trim_cache pop_entry
  store_usage_policy expected ttl now id policy c =
      if is_epoch expected c.auth_cache_epoch
      then record c {
        usage_policy_cache = trim_cache (put_entry id (now + ttl, policy) c.usage_policy_cache);
      }
      else c
