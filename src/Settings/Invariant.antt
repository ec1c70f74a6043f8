-- ===== src/Settings/Invariant.antt =====
-- What holds of the settings of app/services/settings.py after any updates and reloads.
use rapid_inbox.Base.{
  pos, negsuc, ℤ, Text, subst, ℕ, ◌≤◌, ◌≡◌, refl, sym, inl, inr, Bool, true, Option, none, some,
  List, [], ◌∷◌, arith, All, Bool-cases, some_eq,
}
use rapid_inbox.Base.Result.{Result, ok, err, ◌>>=◌}
use rapid_inbox.Routing.Address.{Unicode}
use rapid_inbox.Settings.Keys.{
  Key, Kind, boolean, mode, non_negative, positive, kind_of, maximum, max_message_size_bytes,
  same_key, same_key-eq,
}
use rapid_inbox.Settings.Values.{
  Value, text, Setting, flag, count, choice, SettingsError, is_mode, ranged, as_flag, as_count,
  as_choice, least_of, coerce_bool, coerce_int, coerce_mode, coerce_kind, coerce, or_base,
  deserialize_value,
}
use rapid_inbox.Settings.Service.{
  Settings, Service, set_key, apply_live_settings, within_budget, size_of, apply_updates, Outside,
  after_sync, known_rows, deserialize_all, commit, update_normalized, supported_keys,
  normalize_payload, update_settings, load_persisted_settings,
}

-- A setting of the type that its key has, within its bounds.
abbrev pub InKind : Kind → Key → Setting → Type 0
InKind boolean k (flag b) = Unit
InKind mode k (choice m) = is_mode m ≡ true
InKind non_negative k (count n) = n ≤ maximum k
InKind positive k (count n) = (1 ≤ n) × (n ≤ maximum k)
InKind _ k _ = ⊥

abbrev pub InRange : Key → Setting → Type 0
InRange k s = InKind (kind_of k) k s

pub record IsSettled (sv : Service) : Type 0 where
  pub in_range : (k : Key) → InRange k (sv.settings k)
  pub current : (k : Key) → sv.snapshot k ≡ sv.settings k
  pub affordable : size_of (sv.settings max_message_size_bytes) ≤ sv.budget

flag-InKind : (k : Key) (o : Option Bool) (s : Setting) → as_flag o ≡ some s → InKind boolean k s
flag-InKind k none s h = cc
flag-InKind k (some b) s h = (let e : flag b ≡ s = some_eq h in subst (InKind boolean k) e tt)

pub ranged-bounds :
    (least most : ℕ) (o : Option ℤ) (n : ℕ)
    → ranged least most o ≡ some n
    → (least ≤ n) × (n ≤ most)
ranged-bounds least most none n h = cc
ranged-bounds least most (some (negsuc m)) n h = cc
ranged-bounds least most (some (pos m)) n h = ground arith

pub count-eq :
    (o : Option ℕ) (s : Setting) → as_count o ≡ some s → (n : ℕ) × (o ≡ some n) × (count n ≡ s)
count-eq none s h = cc
count-eq (some n) s h = (n, refl, some_eq h)

pub choice-eq :
    (o : Option Text) (s : Setting)
    → as_choice o ≡ some s
    → (m : Text) × (o ≡ some m) × (choice m ≡ s)
choice-eq none s h = cc
choice-eq (some m) s h = (m, refl, some_eq h)

module _ (u : Unicode) where
  pub is_mode-coerce : (v : Value) (m : Text) → coerce_mode u v ≡ some m → is_mode m ≡ true
  is_mode-coerce v m h = ground arith

  pub coerce-InKind :
      (kind : Kind) (k : Key) (v : Value) (s : Setting)
      → kind_of k ≡ kind
      → coerce_kind u kind k v ≡ some s
      → InKind kind k s
  coerce-InKind boolean k v s e h = flag-InKind k (coerce_bool u v) s h
  coerce-InKind mode k v s e h =
      let (m, c, is) = choice-eq (coerce_mode u v) s h in
      subst (InKind mode k) is (is_mode-coerce v m c)
  coerce-InKind non_negative k v s e h =
      let (n, c, is) = count-eq (coerce_int u k v) s h in
      subst (InKind non_negative k) is (ranged-bounds (least_of (kind_of k)) (maximum k) _ n c).1
  coerce-InKind positive k v s e h =
      let (n, c, is) = count-eq (coerce_int u k v) s h in
      let bounds : (least_of (kind_of k) ≤ n) × (n ≤ maximum k) =
        ranged-bounds (least_of (kind_of k)) (maximum k) _ n c in
      let least : least_of (kind_of k) ≡ 1 = rw e refl in
      subst (InKind positive k) is (omega (arith, bounds, least), bounds.1)

  or_base-InRange :
      (k : Key) (base : Setting) (o : Option Setting)
      → InRange k base
      → ((s : Setting) → o ≡ some s → InRange k s)
      → InRange k (or_base u base o)
  or_base-InRange k base none h f = h
  or_base-InRange k base (some s) h f = f s refl

  deserialize_value-InRange :
      (k : Key) (base : Setting) (t : Text)
      → InRange k base
      → InRange k (deserialize_value u k base t)
  unfolding deserialize_value coerce
  deserialize_value-InRange k base t h =
      or_base-InRange k base (coerce u k (text t)) h
        (λ s e. coerce-InKind (kind_of k) k (text t) s refl e)

  deserialize_all-InRange :
      (base : Settings) (rows : List (Key × Text))
      → ((k : Key) → InRange k (base k))
      → All (λ p. InRange p.0 p.1) (deserialize_all u base rows)
  unfolding deserialize_all
  deserialize_all-InRange base [] h = tt
  deserialize_all-InRange base ((k, t) ∷ rows) h =
      (deserialize_value-InRange k (base k) t (h k), deserialize_all-InRange base rows h)

set_key-InRange :
    (k : Key) (s : Setting) (settings : Settings) (j : Key)
    → InRange k s
    → InRange j (settings j)
    → InRange j (set_key k s settings j)
set_key-InRange k s settings j h old = elim (Bool-cases (same_key j k)) [
  | inl same ↦ rw same (subst (λ i. InRange i s) (sym (same_key-eq j k same)) h)
  | inr other ↦ rw other old
]

apply-InRange :
    (updates : List (Key × Setting)) (settings : Settings)
    → All (λ p. InRange p.0 p.1) updates
    → ((k : Key) → InRange k (settings k))
    → (k : Key) → InRange k (apply_live_settings updates settings k)
unfolding apply_live_settings
apply-InRange [] settings a h = h
apply-InRange ((j, s) ∷ updates) settings (new, a) h =
    apply-InRange updates (set_key j s settings) a (λ k. set_key-InRange j s settings k new (h k))

apply_updates-IsSettled :
    (updates : List (Key × Setting)) (sv : Service)
    → All (λ p. InRange p.0 p.1) updates
    → within_budget updates sv ≡ true
    → IsSettled sv
    → IsSettled (apply_updates updates sv)
apply_updates-IsSettled updates sv a w h = record {
  in_range = apply-InRange updates sv.settings a h.in_range;
  current = λ k. refl;
  affordable = ground (arith, w);
}

after_sync-IsSettled :
    (out : Outside) (sv : Service) → IsSettled sv → IsSettled (after_sync out sv).1
after_sync-IsSettled out sv h = elim (Bool-cases out.synced) [
  | inl done ↦ rw done h
  | inr failed ↦ rw failed h
]

module _ (u : Unicode) where
  commit-IsSettled :
      (out : Outside) (normalized : List (Key × Text)) (sv : Service)
      → IsSettled sv
      → IsSettled (commit u out normalized sv).1
  commit-IsSettled out normalized sv h =
      let updates = deserialize_all u sv.settings normalized in
      elim (Bool-cases (within_budget updates sv)) [
        | inr over ↦ rw over h
        | inl within ↦ elim (Bool-cases out.authorized) [
          | inr stranger ↦ rw (within, stranger) h
          | inl known ↦ elim (Bool-cases out.commits) [
            | inr failed ↦ rw (within, known, failed) h
            | inl done ↦
                rw (within, known, done)
                  (after_sync-IsSettled out (apply_updates updates (record sv { table = _ })) (
                    apply_updates-IsSettled updates (record sv { table = _ })
                      (deserialize_all-InRange u sv.settings normalized h.in_range) within
                      (record {
                        in_range = h.in_range;
                        current = h.current;
                        affordable = h.affordable;
                      })))
          ]
        ]
      ]

  update_settings-IsSettled :
      (out : Outside) (payload : List (Text × Value)) (sv : Service)
      → IsSettled sv
      → IsSettled (update_settings u out payload sv).1
  unfolding update_settings
  update_settings-IsSettled out payload sv h =
      normalized (supported_keys payload >>= normalize_payload u)
    where
      normalized :
          (n : Result SettingsError (List (Key × Text)))
          → IsSettled (update_normalized u out n sv).1
      normalized (err e) = h
      normalized (ok []) = h
      normalized (ok (n ∷ ns)) = commit-IsSettled out (n ∷ ns) sv h

  load_persisted_settings-IsSettled :
      (out : Outside) (sv : Service) → IsSettled sv → IsSettled (load_persisted_settings u out sv).1
  unfolding load_persisted_settings
  load_persisted_settings-IsSettled out sv h =
      let updates = deserialize_all u sv.settings (known_rows sv.table) in
      elim (Bool-cases (within_budget updates sv)) [
        | inr over ↦ rw over h
        | inl within ↦ rw within (
            after_sync-IsSettled out (apply_updates updates sv) (
              apply_updates-IsSettled updates sv
                (deserialize_all-InRange u sv.settings (known_rows sv.table) h.in_range) within h))
      ]

  -- What may happen to the service; the table is also written by others.
  pub data Step : Service → Service → Type 0 where
    updates :
        (out : Outside) (payload : List (Text × Value)) (sv : Service)
        → Step sv (update_settings u out payload sv).1
    loads : (out : Outside) (sv : Service) → Step sv (load_persisted_settings u out sv).1
    writes : (table : List (Text × Text)) (sv : Service) → Step sv (record sv { table = table })

  pub data Run (start : Service) : Service → Type 0 where
    started : Run start start
    later : {before after : Service} → Run start before → Step before after → Run start after

  Step-IsSettled : {before after : Service} → Step before after → IsSettled before → IsSettled after
  Step-IsSettled (updates out payload sv) h = update_settings-IsSettled out payload sv h
  Step-IsSettled (loads out sv) h = load_persisted_settings-IsSettled out sv h
  Step-IsSettled (writes table sv) h = record {
    in_range = h.in_range;
    current = h.current;
    affordable = h.affordable;
  }

  -- Whatever payloads are sent, whatever stands in the table and whatever fails: from settings
  -- that are in their bounds, each live setting keeps the type of its key and its bounds, the
  -- snapshot shows what is live, and a message of the largest size fits in the parse queue.
  pub Run-IsSettled : (start sv : Service) → IsSettled start → Run start sv → IsSettled sv
  Run-IsSettled start sv h started = h
  Run-IsSettled start sv h (later {before} r s) = Step-IsSettled s (Run-IsSettled start before h r)
