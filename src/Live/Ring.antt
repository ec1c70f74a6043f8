-- ===== src/Live/Ring.antt =====
-- `LiveState` of app/smtp/live_state.py: a deque of numbered events with a maximal length. Each
-- method runs under the lock. The events' payload is a parameter, and a cursor is the pair that
-- `_format_cursor` prints.
use rapid_inbox.Base.{
  ℕ, ◌+◌, ◌-◌, Bool, not, Option, none, some, List, [], ◌∷◌, ◌++◌, length, drop, ltb, eqb,
  if◌then◌else◌, String, ◌==◌,
}

pub record Event {ℓ} (E : Type ℓ) : Type ℓ where
  pub seq : ℕ
  pub payload : E

pub record LiveState {ℓ} (E : Type ℓ) : Type ℓ where
  pub max_events : ℕ
  pub events : List (Event E)
  pub generation : String
  pub next_seq : ℕ

-- why a stream cannot be resumed from a cursor
pub data GapReason : Type 0 where
  generation_changed ring_overrun cursor_ahead : GapReason

pub record Window {ℓ} (E : Type ℓ) : Type ℓ where
  pub generation : String
  pub events : List (Event E)
  pub gap_reason : Option GapReason
  pub oldest_seq : ℕ
  pub latest_seq : ℕ

unfoldable pub find_gap : Bool → ℕ → ℕ → ℕ → Option GapReason
find_gap same_generation seq oldest_seq latest_seq =
    if not same_generation
    then some generation_changed
    else if ltb seq (oldest_seq - 1)
    then some ring_overrun
    else if ltb latest_seq seq
    then some cursor_ahead
    else none

module _ {ℓ} {E : Type ℓ} where
  -- `__init__`; the generation is a fresh random text
  abbrev pub new_state : ℕ → String → LiveState E
  new_state max_events generation = record {
    max_events = max_events;
    events = [];
    generation = generation;
    next_seq = 1;
  }

  -- `deque(maxlen=n).append`
  unfoldable pub append_bounded : ℕ → List (Event E) → Event E → List (Event E)
  append_bounded most events event = let all = events ++ event ∷ [] in drop (length all - most) all

  unfoldable pub publish : E → LiveState E → LiveState E
  unfolding append_bounded
  publish e st = record st {
    next_seq = st.next_seq + 1;
    events = append_bounded st.max_events st.events (record { seq = st.next_seq; payload = e });
  }

  abbrev pub last_seq : List (Event E) → ℕ
  last_seq [] = 0
  last_seq (event ∷ []) = event.seq
  last_seq (event ∷ e ∷ events) = last_seq (e ∷ events)

  unfoldable pub snapshot_state : LiveState E → List (Event E) × (String × ℕ)
  snapshot_state st = (st.events, (st.generation, last_seq st.events))

  unfoldable pub snapshot_since : ℕ → List (Event E) → List (Event E)
  snapshot_since seq [] = []
  snapshot_since seq (event ∷ events) =
      let newer = snapshot_since seq events in if ltb seq event.seq then event ∷ newer else newer

  abbrev pub oldest : ℕ → List (Event E) → ℕ
  oldest next_seq [] = next_seq
  oldest next_seq (event ∷ _) = event.seq

  abbrev pub window_events : Option GapReason → ℕ → ℕ → List (Event E) → List (Event E)
  window_events (some _) seq latest events = events
  window_events none seq latest events = if eqb seq latest then [] else snapshot_since seq events

  unfoldable pub snapshot_stream_window : String → ℕ → LiveState E → Window E
  unfolding find_gap snapshot_since
  snapshot_stream_window expected seq st =
      let latest = st.next_seq - 1 in
      let first = oldest st.next_seq st.events in
      let gap = find_gap (expected == st.generation) seq first latest in
      record {
        generation = st.generation;
        events = window_events gap seq latest st.events;
        gap_reason = gap;
        oldest_seq = first;
        latest_seq = latest;
      }

  -- the generation is a fresh random text
  unfoldable pub clear : String → LiveState E → LiveState E
  clear generation st = record st { events = []; generation = generation; next_seq = 1 }
