-- ===== src/ApiKeys/Usage.antt =====
-- `record_usage` of app/auth/api_keys.py: the token bucket of a key and the interval between two
-- writes of its last use. Times are ticks of a monotonic clock, `minute` of them in a minute; a token is
-- `minute` units, so that the refill of a tick is the rate, exactly. An OrderedDict is the list of its
-- items, the oldest first.
use rapid_inbox.Base.{
  ℕ, ◌+◌, ◌-◌, ◌*◌, Bool, true, false, not, Option, none, some, List, [], ◌∷◌, ◌++◌, length, min,
  ltb, leb, eqb, if◌then◌else◌, Text, codes, text_eq,
}
use rapid_inbox.Base.Result.{Result, ok, err}

pub record Bucket : Type 0 where
  pub tokens : ℕ
  pub last_refill : ℕ

abbrev pub usage_state_max_entries : ℕ
usage_state_max_entries = 65536

module _ {A : Type 0} where
  unfoldable pub get_entry : ℕ → List (ℕ × A) → Option A
  get_entry key [] = none
  get_entry key ((k, a) ∷ entries) =
      let later = get_entry key entries in if eqb key k then some a else later

  unfoldable pub pop_entry : ℕ → List (ℕ × A) → List (ℕ × A)
  pop_entry key [] = []
  pop_entry key ((k, a) ∷ entries) =
      let rest = pop_entry key entries in if eqb key k then entries else (k, a) ∷ rest

  -- `entries[key] = a` and `entries.move_to_end(key)`
  abbrev pub put_entry : ℕ → A → List (ℕ × A) → List (ℕ × A)
  put_entry key a entries = pop_entry key entries ++ (key, a) ∷ []

  -- `while len(entries) > USAGE_STATE_MAX_ENTRIES: entries.popitem(last=False)`
  unfoldable pub drop_oldest : List (ℕ × A) → List (ℕ × A)
  drop_oldest [] = []
  drop_oldest (e ∷ entries) =
      let rest = drop_oldest entries in
      if ltb usage_state_max_entries (length (e ∷ entries)) then rest else e ∷ entries

-- the tokens that the bucket has now
abbrev pub refilled : (minute rate now : ℕ) → Option Bucket → ℕ
refilled minute rate now none = rate * minute
refilled minute rate now (some b) = min (rate * minute) (b.tokens + (now - b.last_refill) * rate)

-- whether there is a token, and the bucket that is stored
unfoldable pub take_token : (minute rate now : ℕ) → Option Bucket → Bool × Bucket
take_token minute rate now b =
    let tokens = refilled minute rate now b in
    if ltb tokens minute
    then (false, record { tokens = tokens; last_refill = now })
    else (true, record { tokens = tokens - minute; last_refill = now })

pub record Usage : Type 0 where
  pub usage_buckets : List (ℕ × Bucket)
  pub last_usage_persisted : List (ℕ × ℕ)

pub data UsageError : Type 0 where
  invalid_api_key ip_not_allowed rate_limit_exceeded : UsageError

abbrev pub is_due : (interval now : ℕ) → Option ℕ → Bool
is_due interval now none = true
is_due interval now (some last) = leb (last + interval) now

-- the end of the locked section: whether the use is to be written
unfoldable pub persist_round : (interval now key : ℕ) → Usage → Result UsageError Bool × Usage
unfolding get_entry pop_entry drop_oldest
persist_round interval now key u =
    if is_due interval now (get_entry key u.last_usage_persisted)
    then (
      ok true,
      record u { last_usage_persisted = drop_oldest (put_entry key now u.last_usage_persisted) },
    )
    else (ok false, u)

abbrev pub charge : (interval now key : ℕ) → Bool × Bucket → Usage → Result UsageError Bool × Usage
charge interval now key (false, b) u =
    (err rate_limit_exceeded, record u { usage_buckets = put_entry key b u.usage_buckets })
charge interval now key (true, b) u =
    persist_round interval now key
      (record u { usage_buckets = drop_oldest (put_entry key b u.usage_buckets) })

-- the locked section of `record_usage`; `interval` is USAGE_PERSIST_INTERVAL_SECONDS in ticks
unfoldable pub usage_round :
    (minute interval rate now key : ℕ) → Usage → Result UsageError Bool × Usage
unfolding take_token persist_round
usage_round minute interval rate now key u =
    if ltb 0 rate
    then charge interval now key (take_token minute rate now (get_entry key u.usage_buckets)) u
    else persist_round interval now key (record u { usage_buckets = pop_entry key u.usage_buckets })

-- `record_usage` up to the write, for the policy that was found; `ip_allowed` is the answer of
-- `_request_ip_allowed`
unfoldable pub record_usage :
    (minute interval rate now key : ℕ) → Text → Bool → Usage → Result UsageError Bool × Usage
unfolding usage_round
record_usage minute interval rate now key status ip_allowed u =
    if not (text_eq status (codes "active"))
    then (err invalid_api_key, u)
    else if not ip_allowed
    then (err ip_not_allowed, u)
    else usage_round minute interval rate now key u

abbrev pub was_at : ℕ → Option ℕ → Bool
was_at now none = false
was_at now (some last) = eqb last now

-- the error path of the write
unfoldable pub forget_persisted : (now key : ℕ) → Usage → Usage
unfolding get_entry pop_entry
forget_persisted now key u =
    if was_at now (get_entry key u.last_usage_persisted)
    then record u { last_usage_persisted = pop_entry key u.last_usage_persisted }
    else u
