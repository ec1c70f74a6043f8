-- ===== src/ApiKeys/Fresh.antt =====
-- What an invalidation in app/auth/api_keys.py takes out of the cache of records does not come back.
use rapid_inbox.Base.{
  eqb_iff, some_eq, subst, ℕ, suc, ◌+◌, ◌≤◌, ◌≡◌, refl, Bool, true, not, Option, none, some, List,
  [], ◌∷◌, ◌++◌, length, ltb, eqb, if◌then◌else◌, All, Bool-cases, inl, inr, arith,
}
use rapid_inbox.ApiKeys.Cache.{
  CacheKey, same_cache_key, Policy, Entry, AuthCache, auth_cache_max_entries, trim_cache,
  keep_items, find_cached, pop_cached, serve_cached, cached_authentication_record, store_entry,
  store_record, has_key_id, invalidate_key_cache,
}

module _ {A : Type 0} (P : A → Type 0) where
  All-trim : (entries : List A) → All P entries → All P (trim_cache entries)
  unfolding trim_cache
  All-trim [] h = tt
  All-trim (e ∷ entries) (p, h) =
      elim (Bool-cases (ltb auth_cache_max_entries (suc (length entries)))) [
        | inl full ↦ rw full (All-trim entries h)
        | inr room ↦ rw room (p, h)
      ]

  All-last : (entries : List A) (e : A) → All P entries → P e → All P (entries ++ e ∷ [])
  All-last [] e h p = (p, tt)
  All-last (x ∷ entries) e (q, h) p = (q, All-last entries e h p)

  All-keep :
      (Q : A → Type 0) (keeps : A → Bool) (entries : List A)
      → ((a : A) → keeps a ≡ true → P a → Q a)
      → All P entries
      → All Q (keep_items keeps entries)
  unfolding keep_items
  All-keep Q keeps [] f h = tt
  All-keep Q keeps (e ∷ entries) f (p, h) = elim (Bool-cases (keeps e)) [
    | inl k ↦ rw k (f e k p, All-keep Q keeps entries f h)
    | inr k ↦ rw k (All-keep Q keeps entries f h)
  ]

module _ {V : Type 0} (P : Entry V → Type 0) where
  All-pop :
      (key : CacheKey) (entries : List (Entry V)) → All P entries → All P (pop_cached key entries)
  unfolding pop_cached
  All-pop key [] h = tt
  All-pop key (e ∷ entries) (p, h) = elim (Bool-cases (same_cache_key key e.key)) [
    | inl s ↦ rw s h
    | inr s ↦ rw s (p, All-pop key entries h)
  ]

  find-All :
      (key : CacheKey) (entries : List (Entry V)) (e : Entry V)
      → find_cached key entries ≡ some e
      → All P entries
      → P e
  unfolding find_cached
  find-All key [] e f h = cc
  find-All key (x ∷ entries) e f (p, h) = elim (Bool-cases (same_cache_key key x.key)) [
    | inl s ↦ subst P (some_eq (rw s at f)) p
    | inr s ↦ find-All key entries e (rw s at f) h
  ]

  serve-All :
      (now : ℕ) (key : CacheKey) (o : Option (Entry V)) (c : AuthCache V)
      → ((e : Entry V) → o ≡ some e → P e)
      → All P c.auth_cache
      → All P (serve_cached now key o c).1.auth_cache
  serve-All now key none c f h = h
  serve-All now key (some e) c f h = elim (Bool-cases (ltb now e.expires_at)) [
    | inl l ↦
        rw l (All-last P (pop_cached key c.auth_cache) e (All-pop key c.auth_cache h) (f e refl))
    | inr l ↦ rw l (All-pop key c.auth_cache h)
  ]

-- A record with the epoch in which its load began.
pub record Loaded (R : Type 0) : Type 0 where
  pub stored : R
  pub began : ℕ

abbrev pub raise_floor : ℕ → ℕ → (ℕ → ℕ) → ℕ → ℕ
raise_floor id epoch floor k = if eqb k id then epoch else floor k

module _ {R : Type 0} (id_of : R → Option ℕ) (is_selected : R → Bool) (policy_of : R → Policy) where
  abbrev loaded_id : Loaded R → Option ℕ
  loaded_id v = id_of v.stored

  abbrev pub empty_cache : AuthCache (Loaded R)
  empty_cache = record { auth_cache_epoch = 0; auth_cache = []; usage_policy_cache = [] }

  -- Calls in any order; for each key, the floor is the epoch that its last invalidation began. A record
  -- may be stored whenever its load began.
  pub data Run : AuthCache (Loaded R) → (ℕ → ℕ) → Type 0 where
    started : Run empty_cache (λ _. 0)
    serves :
        {c : AuthCache (Loaded R)} {floor : ℕ → ℕ} (now : ℕ) (key : CacheKey)
        → Run c floor
        → Run (cached_authentication_record now key c).1 floor
    stores :
        {c : AuthCache (Loaded R)} {floor : ℕ → ℕ} (load_epoch ttl now : ℕ) (key : CacheKey) (r : R)
        → Run c floor
        → Run
            (store_record
              (λ v. id_of v.stored)
              (λ v. is_selected v.stored)
              (λ v. policy_of v.stored)
              load_epoch
              ttl
              now
              key
              (record { stored = r; began = load_epoch })
              c)
            floor
    invalidates :
        {c : AuthCache (Loaded R)} {floor : ℕ → ℕ} (id : ℕ)
        → Run c floor
        → Run
            (invalidate_key_cache
              (λ v. id_of v.stored)
              (λ v. is_selected v.stored)
              (λ v. policy_of v.stored)
              id
              c)
            (raise_floor id (suc c.auth_cache_epoch) floor)

  abbrev AtLeast : (ℕ → ℕ) → ℕ → Option ℕ → Type 0
  AtLeast floor began none = Unit
  AtLeast floor began (some k) = floor k ≤ began

  -- The entry was loaded after the last invalidation of its key.
  pub record IsFresh (floor : ℕ → ℕ) (e : Entry (Loaded R)) : Type 0 where
    pub after : AtLeast floor e.value.began (id_of e.value.stored)

  pub record AreFresh (floor : ℕ → ℕ) (c : AuthCache (Loaded R)) : Type 0 where
    pub past : (k : ℕ) → floor k ≤ c.auth_cache_epoch
    pub entries : All (IsFresh floor) c.auth_cache

  AtLeast-epoch :
      (floor : ℕ → ℕ) (epoch : ℕ) (o : Option ℕ)
      → ((k : ℕ) → floor k ≤ epoch)
      → AtLeast floor epoch o
  AtLeast-epoch floor epoch none f = tt
  AtLeast-epoch floor epoch (some k) f = f k

  AtLeast-raise :
      (floor : ℕ → ℕ) (id epoch began : ℕ) (o : Option ℕ)
      → not (
          has_key_id {V = Loaded R}
            (λ v. id_of v.stored)
            (λ v. is_selected v.stored)
            (λ v. policy_of v.stored)
            id
            o)
        ≡ true
      → AtLeast floor began o
      → AtLeast (raise_floor id epoch floor) began o
  AtLeast-raise floor id epoch began none h a = tt
  AtLeast-raise floor id epoch began (some k) h a = elim (Bool-cases (eqb k id)) [
    | inl s ↦ ground arith
    | inr s ↦ rw s a
  ]

  raise_floor-bound :
      (id epoch : ℕ) (floor : ℕ → ℕ) (k : ℕ)
      → floor k ≤ epoch
      → raise_floor id (suc epoch) floor k ≤ suc epoch
  raise_floor-bound id epoch floor k h = elim (Bool-cases (eqb k id)) [
    | inl s ↦ rw s (omega arith)
    | inr s ↦ rw s (omega arith)
  ]

  invalidate-AreFresh :
      (id : ℕ) (floor : ℕ → ℕ) (c : AuthCache (Loaded R))
      → AreFresh floor c
      → AreFresh (raise_floor id (suc c.auth_cache_epoch) floor) (
          invalidate_key_cache
            (λ v. id_of v.stored)
            (λ v. is_selected v.stored)
            (λ v. policy_of v.stored)
            id
            c)
  unfolding invalidate_key_cache
  invalidate-AreFresh id floor c h = record {
    past = λ k. raise_floor-bound id c.auth_cache_epoch floor k (h.past k);
    entries =
        All-keep (IsFresh floor) (IsFresh (raise_floor id (suc c.auth_cache_epoch) floor)) _
          c.auth_cache
          (λ e k p. record {
            after =
                AtLeast-raise floor id (suc c.auth_cache_epoch) e.value.began (id_of e.value.stored)
                  k p.after;
          })
          h.entries;
  }

  store_entry-AreFresh :
      (load_epoch ttl now : ℕ) (key : CacheKey) (r : R) (floor : ℕ → ℕ) (c : AuthCache (Loaded R))
      → load_epoch ≡ c.auth_cache_epoch
      → AreFresh floor c
      → All (IsFresh floor) (
          store_entry
            (λ v. id_of v.stored)
            (λ v. is_selected v.stored)
            (λ v. policy_of v.stored)
            (now + ttl)
            key
            (record { stored = r; began = load_epoch })
            c.auth_cache)
  store_entry-AreFresh load_epoch ttl now key r floor c e h = elim (Bool-cases (is_selected r)) [
    | inl s ↦ rw s h.entries
    | inr s ↦ rw s (
        All-trim (IsFresh floor) _ (
          All-last (IsFresh floor) (pop_cached key c.auth_cache) _
            (All-pop (IsFresh floor) key c.auth_cache h.entries)
            (record { after = AtLeast-epoch floor load_epoch (id_of r) (λ k. rw e (h.past k)) })))
  ]

  store-AreFresh :
      (load_epoch ttl now : ℕ) (key : CacheKey) (r : R) (floor : ℕ → ℕ) (c : AuthCache (Loaded R))
      → AreFresh floor c
      → AreFresh floor (
          store_record
            (λ v. id_of v.stored)
            (λ v. is_selected v.stored)
            (λ v. policy_of v.stored)
            load_epoch
            ttl
            now
            key
            (record { stored = r; began = load_epoch })
            c)
  unfolding store_record
  store-AreFresh load_epoch ttl now key r floor c h =
      elim (Bool-cases (eqb load_epoch c.auth_cache_epoch)) [
        | inr other ↦ rw other h
        | inl same ↦ rw same (record {
          past = h.past;
          entries = store_entry-AreFresh load_epoch ttl now key r floor c ((eqb_iff _ _).0 same) h;
        })
      ]

  serve-epoch :
      (now : ℕ) (key : CacheKey) (o : Option (Entry (Loaded R))) (c : AuthCache (Loaded R))
      → (serve_cached now key o c).1.auth_cache_epoch ≡ c.auth_cache_epoch
  serve-epoch now key none c = refl
  serve-epoch now key (some e) c = ground arith

  -- In every run of the cache of key records, in which records may be stored whenever their loads
  -- began: no entry of a key comes from a load that began before the last invalidation of that
  -- key.
  pub Run-AreFresh : (c : AuthCache (Loaded R)) (floor : ℕ → ℕ) → Run c floor → AreFresh floor c
  unfolding cached_authentication_record
  Run-AreFresh c floor started = record { past = λ k. omega arith; entries = tt }
  Run-AreFresh d floor (serves {c} now key r) =
      let h = Run-AreFresh c floor r in
      record {
        past = λ k. rw (serve-epoch now key (find_cached key c.auth_cache) c) (h.past k);
        entries =
            serve-All (IsFresh floor) now key (find_cached key c.auth_cache) c
              (λ e f. find-All (IsFresh floor) key c.auth_cache e f h.entries) h.entries;
      }
  Run-AreFresh d floor (stores {c} load_epoch ttl now key v r) =
      store-AreFresh load_epoch ttl now key v floor c (Run-AreFresh c floor r)
  Run-AreFresh d f (invalidates {c} {floor} id r) =
      invalidate-AreFresh id floor c (Run-AreFresh c floor r)
