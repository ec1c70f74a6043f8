-- ===== src/Live/Tests.antt =====
-- Runs of the live ring, and its theorems at concrete inputs.
use rapid_inbox.Base.{
  ℕ, suc, ◌≤◌, ◌<◌, ◌≡◌, refl, ◌⊎◌, none, some, List, [], ◌∷◌, ◌++◌, length, drop,
}
use rapid_inbox.Live.Ring.{
  LiveState, generation_changed, ring_overrun, cursor_ahead, new_state, publish, snapshot_state,
  snapshot_stream_window, clear,
}
use rapid_inbox.Live.Numbering.{numbered}
use rapid_inbox.Live.Stream.{Run, fresh, published, lost, window_bounds, stream_window_exact}

machine : Unit {0}
unfolding publish snapshot_state snapshot_stream_window clear numbered
machine = tt

-- Three events in a ring of two.
abbrev full_ring : LiveState ℕ
full_ring = publish 30 (publish 20 (publish 10 (new_state 2 "g")))

abbrev history : List ℕ
history = (([] ++ 10 ∷ []) ++ 20 ∷ []) ++ 30 ∷ []

run3 : Run 2 "g" history full_ring
run3 = published 30 (published 20 (published 10 fresh))

windows :
    ((snapshot_stream_window "g" 2 full_ring).events ≡ record { seq = 3; payload = 30 } ∷ [])
    × ((snapshot_stream_window "g" 0 full_ring).gap_reason ≡ some ring_overrun)
    × ((snapshot_stream_window "g" 9 full_ring).gap_reason ≡ some cursor_ahead)
    × ((snapshot_stream_window "old" 3 full_ring).gap_reason ≡ some generation_changed)
    × ((snapshot_state full_ring).1 ≡ ("g", 3))
unfolding machine
windows = (refl, refl, refl, refl, refl)

ring_bounds :
    ((snapshot_stream_window "g" 2 full_ring).latest_seq ≡ length history)
    × ((snapshot_stream_window "g" 2 full_ring).oldest_seq ≡ suc (lost 2 history))
    × (length full_ring.events ≤ 2)
ring_bounds = window_bounds 2 "g" history full_ring "g" 2 run3

stream_window_exact_example :
    (lost 2 history ≤ 2)
      × (2 ≤ length history)
      × ((snapshot_stream_window "g" 2 full_ring).gap_reason ≡ none)
      × ((snapshot_stream_window "g" 2 full_ring).events ≡ numbered 3 (drop 2 history))
    ⊎ (2 < lost 2 history)
      × ((snapshot_stream_window "g" 2 full_ring).gap_reason ≡ some ring_overrun)
      × ((snapshot_stream_window "g" 2 full_ring).events ≡ full_ring.events)
    ⊎ (length history < 2)
      × ((snapshot_stream_window "g" 2 full_ring).gap_reason ≡ some cursor_ahead)
      × ((snapshot_stream_window "g" 2 full_ring).events ≡ full_ring.events)
stream_window_exact_example = stream_window_exact 2 "g" history full_ring 2 run3
