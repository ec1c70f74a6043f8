-- ===== src/Pool/Reopen.antt =====
-- What the opening of a connection in app/db/read_pool.py returns is open.
use rapid_inbox.Pool.Request.{
  raised_or, Identity, same_identity, Slot, Raised, Opening, try_open, open_again,
  opened_or_replaced, opened_slot, matching, known_identity, open_current_database, reopened,
}
use rapid_inbox.Base.{◌≡◌, refl, Bool, true, false, Option, none, some, arith}
use rapid_inbox.Base.Result.{Result, ok, err, ◌>>=◌, >>=-ok_cases}

abbrev pub Healthy : Option Slot → Type 0
Healthy none = Unit
Healthy (some s) = s.is_open ≡ true

abbrev Opens : Option Slot → Type 0
Opens o = (s : Slot) → o ≡ some s → s.is_open ≡ true

module _ {E : Type 0} where
  matching-Opens :
      (same : Bool) (actual : Identity) (o : Option Slot)
      → matching {E = E} same actual ≡ ok o
      → Opens o
  matching-Opens true actual (some u) h s e = ground arith
  matching-Opens true actual none h s e = cc
  matching-Opens false actual o h s e = ground arith

  raised_or-ok :
      {A : Type 0} (x : Option (Raised E)) (r : Result (Raised E) A) {a : A}
      → raised_or x r ≡ ok a
      → r ≡ ok a
  raised_or-ok (some e) r h = cc
  raised_or-ok none r h = h

  try_open-Opens : (x : Opening E) (i : Identity) (o : Option Slot) → try_open x i ≡ ok o → Opens o
  unfolding try_open
  try_open-Opens x i o h =
      let (actual, _, k) =
        >>=-ok_cases (known_identity x.actual) (opened_slot i) (raised_or-ok x.raises _ h) in
      matching-Opens (same_identity actual i) actual o k

  slot-Opens :
      (o : Option Slot) (s : Slot)
      → Opens o
      → opened_or_replaced {E = E} o ≡ ok s
      → s.is_open ≡ true
  slot-Opens (some u) s f h = f s (ground arith)
  slot-Opens none s f h = cc

  open_again-Opens :
      (first second : Opening E) (o : Option Slot) (s : Slot)
      → Opens o
      → open_again first second o ≡ ok s
      → s.is_open ≡ true
  open_again-Opens first second (some u) s f h = f s (ground arith)
  open_again-Opens first second none s f h =
      let (i, _, k) =
        >>=-ok_cases (known_identity first.expected_again)
          (λ expected. try_open second expected >>= opened_or_replaced) h in
      let (o, l, m) = >>=-ok_cases (try_open second i) opened_or_replaced k in
      slot-Opens o s (try_open-Opens second i o l) m

  pub open_current_database-opens :
      (first second : Opening E) (i : Identity) (s : Slot)
      → open_current_database first second i ≡ ok s
      → s.is_open ≡ true
  unfolding open_current_database
  open_current_database-opens first second i s h =
      let (o, l, m) = >>=-ok_cases (try_open first i) (open_again first second) h in
      open_again-Opens first second o s (try_open-Opens first i o l) m

  pub reopened-Healthy :
      (r : Result (Raised E) Slot)
      → ((s : Slot) → r ≡ ok s → s.is_open ≡ true)
      → Healthy (reopened none r).0
  reopened-Healthy (ok s) f = f s refl
  reopened-Healthy (err e) f = tt
