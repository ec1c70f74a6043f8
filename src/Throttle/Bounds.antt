-- ===== src/Throttle/Bounds.antt =====
-- The size of the tables of the login throttle in app/auth/sessions.py, and the order of the times in them.
use rapid_inbox.Base.{
  text_eq, Text, ℕ, suc, ◌+◌, ◌≤◌, ◌<◌, ◌≡◌, inl, inr, some, List, [], ◌∷◌, ◌++◌, arith, length,
  All, leb, Bool-cases,
}
use rapid_inbox.Throttle.Windows.{
  login_failure_max_keys, Windows, get_window, pop_window, trim, evict,
}

-- Times in ascending order, from `low` on, none of them after `last`.
abbrev pub InOrder : ℕ → ℕ → List ℕ → Type 0
InOrder low last [] = Unit
InOrder low last (t ∷ times) = (low ≤ t) × (t ≤ last) × InOrder t last times

-- The state of a table at the time `last`.
pub record IsKept (last : ℕ) (windows : Windows) : Type 0 where
  pub bounded : length windows ≤ login_failure_max_keys
  pub ordered : All (λ w. InOrder 0 last w.1) windows

pub InOrder-later :
    (low last now : ℕ) (times : List ℕ)
    → last ≤ now
    → InOrder low last times
    → InOrder low now times
InOrder-later low last now [] le h = tt
InOrder-later low last now (t ∷ times) le (a, b, h) =
    (a, omega arith, InOrder-later t last now times le h)

InOrder-lower :
    (low low' last : ℕ) (times : List ℕ)
    → low' ≤ low
    → InOrder low last times
    → InOrder low' last times
InOrder-lower low low' last [] le h = tt
InOrder-lower low low' last (t ∷ times) le (a, b, h) = (omega arith, b, h)

pub InOrder-append :
    (low last now : ℕ) (times : List ℕ)
    → low ≤ now
    → last ≤ now
    → InOrder low last times
    → InOrder low now (times ++ now ∷ [])
InOrder-append low last now [] a b h = (a, omega arith, tt)
InOrder-append low last now (t ∷ times) a b (c, d, h) =
    (c, omega arith, InOrder-append t last now times (omega arith) b h)

pub InOrder-trim :
    (window now low last : ℕ) (times : List ℕ)
    → InOrder low last times
    → InOrder low last (trim window now times)
unfolding trim
InOrder-trim window now low last [] h = tt
InOrder-trim window now low last (t ∷ times) (a, b, h) = elim (Bool-cases (leb (t + window) now)) [
  | inl old ↦
      rw old (
        InOrder-lower t low last (trim window now times) a (InOrder-trim window now t last times h))
  | inr new ↦ rw new (a, b, h)
]

All-later :
    (last now : ℕ) (windows : Windows)
    → last ≤ now
    → All (λ w. InOrder 0 last w.1) windows
    → All (λ w. InOrder 0 now w.1) windows
All-later last now [] le h = tt
All-later last now (w ∷ windows) le (a, h) =
    (InOrder-later 0 last now w.1 le a, All-later last now windows le h)

pub IsKept-later :
    (last now : ℕ) (windows : Windows) → last ≤ now → IsKept last windows → IsKept now windows
IsKept-later last now windows le k = record {
  bounded = k.bounded;
  ordered = All-later last now windows le k.ordered;
}

pub All-pop :
    (P : Text × List ℕ → Type 0) (key : Text) (windows : Windows)
    → All P windows
    → All P (pop_window key windows)
unfolding pop_window
All-pop P key [] h = tt
All-pop P key ((k, times) ∷ windows) (p, h) = elim (Bool-cases (text_eq key k)) [
  | inl same ↦ rw same h
  | inr other ↦ rw other (p, All-pop P key windows h)
]

pub All-append :
    (P : Text × List ℕ → Type 0) (windows : Windows) (w : Text × List ℕ)
    → All P windows
    → P w
    → All P (windows ++ w ∷ [])
All-append P [] w h p = (p, tt)
All-append P (v ∷ windows) w (q, h) p = (q, All-append P windows w h p)

pub All-evict :
    (P : Text × List ℕ → Type 0) (windows : Windows) → All P windows → All P (evict windows)
unfolding evict
All-evict P [] h = tt
All-evict P (w ∷ windows) (p, h) =
    elim (Bool-cases (leb login_failure_max_keys (suc (length windows)))) [
      | inl full ↦ rw full (All-evict P windows h)
      | inr room ↦ rw room (p, h)
    ]

pub length-pop : (key : Text) (windows : Windows) → length (pop_window key windows) ≤ length windows
unfolding pop_window
length-pop key [] = omega arith
length-pop key ((k, times) ∷ windows) = ground (arith, length-pop key windows)

pub length-pop_known :
    (key : Text) (windows : Windows) (times : List ℕ)
    → get_window key windows ≡ some times
    → length (pop_window key windows) + 1 ≡ length windows
unfolding pop_window get_window
length-pop_known key [] times h = cc
length-pop_known key ((k, times') ∷ windows) times h = elim (Bool-cases (text_eq key k)) [
  | inl same ↦ rw same (omega arith)
  | inr other ↦
      let later : get_window key windows ≡ some times = rw other at h in
      rw other (omega (arith, length-pop_known key windows times later))
]

pub length-evict : (windows : Windows) → length (evict windows) < login_failure_max_keys
unfolding evict
length-evict [] = omega arith
length-evict (w ∷ windows) = ground (arith, length-evict windows)

pub get_window-InOrder :
    (last : ℕ) (key : Text) (windows : Windows) (times : List ℕ)
    → get_window key windows ≡ some times
    → All (λ w. InOrder 0 last w.1) windows
    → InOrder 0 last times
unfolding get_window
get_window-InOrder last key [] times e h = cc
get_window-InOrder last key ((k, times') ∷ windows) times e (a, h) =
    elim (Bool-cases (text_eq key k)) [
      | inl same ↦ let is : times' ≡ times = ground (arith, e, same) in rw (← is) a
      | inr other ↦ get_window-InOrder last key windows times (rw other at e) h
    ]
