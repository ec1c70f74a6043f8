-- ===== src/Runtime/Limits.antt =====
-- The limits on SMTP connections that app/runtime.py keeps in every run.
use rapid_inbox.Base.{
  ℕ, suc, ◌≤◌, ◌≡◌, refl, ◌⊎◌, inl, inr, ◌&&◌, List, [], ◌∷◌, ◌++◌, length, length-append, ltb, leb,
  Text, All, arith, Bool-cases,
}
use rapid_inbox.Throttle.Windows.{Windows, get_window, trim}
use rapid_inbox.Throttle.Bounds.{InOrder, InOrder-append, InOrder-trim, All-append}
use rapid_inbox.Runtime.Connections.{
  Sessions, Connections, smtp_ip_window_capacity, has_session, pop_session,
  evict_stale_smtp_ip_windows, Opened, open_window, admit_or_refuse, count_by_ip, uncounted,
  register_smtp_connection, release_smtp_connection,
}
use rapid_inbox.Runtime.Tables.{
  IsPaced, IsOpened, length-pop_session, IsPaced-later, evict_stale-keeps, capacity_positive,
  length-trim, open_window-IsOpened,
}

module _ (max_connections rate_limit window : ℕ) where
  pub record IsWithin (last : ℕ) (c : Connections) : Type 0 where
    pub concurrent : (max_connections ≡ 0) ⊎ (length c.active ≤ max_connections)
    pub kept : length c.ip_windows ≤ smtp_ip_window_capacity max_connections
    pub paced : All (IsPaced rate_limit last) c.ip_windows

  -- Calls at times that do not go back.
  pub data Run : ℕ → Connections → Type 0 where
    started : (now : ℕ) → Run now (record { active = []; ip_windows = []; ip_expiry_order = [] })
    registers :
        {last : ℕ} {c : Connections} (now : ℕ) (session ip : Text)
        → last ≤ now
        → Run last c
        → Run now (register_smtp_connection max_connections rate_limit window now session ip c).0
    releases :
        {last : ℕ} {c : Connections} (session : Text)
        → Run last c
        → Run last (release_smtp_connection session c).0

shorter :
    (n : ℕ) (session : Text) (sessions : Sessions)
    → (n ≡ 0) ⊎ (length sessions ≤ n)
    → (n ≡ 0) ⊎ (length (pop_session session sessions) ≤ n)
shorter n session sessions (inl h) = inl h
shorter n session sessions (inr h) = inr (omega (arith, length-pop_session session sessions))

longer :
    (n : ℕ) (sessions : Sessions) (x : Text × Text)
    → (n ≡ 0) ⊎ (suc (length sessions) ≤ n)
    → (n ≡ 0) ⊎ (length (sessions ++ x ∷ []) ≤ n)
longer n sessions x (inl h) = inl h
longer n sessions x (inr h) = inr (omega (arith, length-append sessions (x ∷ [])))

admit_or_refuse-IsWithin :
    (max_connections rate_limit window now : ℕ) (session ip : Text) (c : Connections) (o : Opened)
    (times : List ℕ)
    → (max_connections ≡ 0) ⊎ (suc (length c.active) ≤ max_connections)
    → IsOpened (smtp_ip_window_capacity max_connections) rate_limit now o
    → InOrder 0 now times
    → length times ≤ rate_limit
    → IsWithin max_connections rate_limit window now
        (admit_or_refuse rate_limit now session ip c o times).0
unfolding admit_or_refuse
admit_or_refuse-IsWithin max_connections rate_limit window now session ip c o times a k r f =
    elim (Bool-cases (leb rate_limit (length times))) [
      | inl full ↦ rw full (record {
        concurrent = ground arith;
        kept = omega (arith, k.room, length-append o.others ((ip, times) ∷ []));
        paced =
            All-append (IsPaced rate_limit now) o.others (ip, times) k.paced
              (record { ordered = r; few = f });
      })
      | inr room ↦ rw room (record {
        concurrent = longer max_connections c.active (session, ip) a;
        kept = omega (arith, k.room, length-append o.others ((ip, times ++ now ∷ []) ∷ []));
        paced =
            All-append (IsPaced rate_limit now) o.others (ip, times ++ now ∷ []) k.paced
              (record {
                ordered = InOrder-append 0 now now times (omega arith) (omega arith) r;
                few = ground (arith, length-append times (now ∷ []));
              });
      })
    ]

module _ (max_connections rate_limit window now : ℕ) (session ip : Text) (c : Connections) where
  abbrev Within : Connections → Type 0
  Within d = IsWithin max_connections rate_limit window now d

  count_by_ip-IsWithin :
      (max_connections ≡ 0) ⊎ (suc (length c.active) ≤ max_connections)
      → Within c
      → Within (count_by_ip max_connections rate_limit window now session ip c).0
  unfolding count_by_ip
  count_by_ip-IsWithin a h =
      let (order, windows) =
        evict_stale_smtp_ip_windows window now c.ip_expiry_order c.ip_windows in
      let (p, l) =
        evict_stale-keeps (IsPaced rate_limit now) window now c.ip_expiry_order c.ip_windows
          h.paced in
      let o =
        open_window (smtp_ip_window_capacity max_connections) ip (get_window ip windows) windows
          order in
      let k =
        open_window-IsOpened (smtp_ip_window_capacity max_connections) rate_limit now ip
          (get_window ip windows) windows order refl (capacity_positive max_connections)
          (omega (arith, h.kept)) p in
      admit_or_refuse-IsWithin max_connections rate_limit window now session ip c o
        (trim window now o.times) a k (InOrder-trim window now 0 now o.times k.ordered)
        (omega (arith, length-trim window now o.times, k.few))

  uncounted-IsWithin :
      (windows : Windows)
      → (max_connections ≡ 0) ⊎ (suc (length c.active) ≤ max_connections)
      → Within c
      → Within (uncounted session ip c windows)
  uncounted-IsWithin [] a h = record {
    concurrent = longer max_connections c.active (session, ip) a;
    kept = h.kept;
    paced = h.paced;
  }
  uncounted-IsWithin (w ∷ windows) a h = record {
    concurrent = longer max_connections c.active (session, ip) a;
    kept = omega arith;
    paced = tt;
  }

  register-IsWithin :
      Within c
      → Within (register_smtp_connection max_connections rate_limit window now session ip c).0
  unfolding register_smtp_connection
  register-IsWithin h = elim (Bool-cases (has_session session c.active)) [
    | inl known ↦ rw known h
    | inr new ↦
        rw new (elim (Bool-cases (ltb 0 max_connections && leb max_connections (length c.active))) [
          | inl full ↦ rw full h
          | inr room ↦
              let a : (max_connections ≡ 0) ⊎ (suc (length c.active) ≤ max_connections) =
                ground arith in
              rw room (elim (Bool-cases (ltb 0 rate_limit && ltb 0 window)) [
                | inl limits ↦ rw limits (count_by_ip-IsWithin a h)
                | inr free ↦ rw free (uncounted-IsWithin c.ip_windows a h)
              ])
        ])
  ]

-- In every run with fixed settings, at times that do not go back: at most the configured number
-- of SMTP connections is registered, unless that is zero; the table by address is within its
-- capacity; and each window holds times in order, none after the last call, and at most as many
-- as the rate limit.
pub Run-IsWithin :
    (max_connections rate_limit window now : ℕ) (c : Connections)
    → Run max_connections rate_limit window now c
    → IsWithin max_connections rate_limit window now c
unfolding release_smtp_connection
Run-IsWithin max_connections rate_limit window now c (started _) = record {
  concurrent = inr (omega arith);
  kept = omega arith;
  paced = tt;
}
Run-IsWithin max_connections rate_limit window now d (registers {last} {c} _ session ip le r) =
    let h = Run-IsWithin max_connections rate_limit window last c r in
    register-IsWithin max_connections rate_limit window now session ip c (record {
      concurrent = h.concurrent;
      kept = h.kept;
      paced = IsPaced-later rate_limit last now c.ip_windows le h.paced;
    })
Run-IsWithin max_connections rate_limit window now d (releases {last} {c} session r) =
    let h = Run-IsWithin max_connections rate_limit window last c r in
    record {
      concurrent = shorter max_connections session c.active h.concurrent;
      kept = h.kept;
      paced = h.paced;
    }
