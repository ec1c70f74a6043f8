-- ===== src/Live/Stream.antt =====
-- The stream of app/smtp/live_state.py against the history of what was published.
use rapid_inbox.Base.{
  ℕ, zero, suc, ◌+◌, ◌-◌, ◌≤◌, ◌<◌, ◌≡◌, refl, sym, ap, ◌∙◌, ◌⊎◌, inl, inr, true, none, some, List,
  [], ◌∷◌, ◌++◌, arith, length, length-append, drop, drop-nil, drop-drop, drop-append, length-drop,
  eqb, Bool-cases, String, ◌==◌, eq_iff,
}
use rapid_inbox.Live.Ring.{
  Event, LiveState, ring_overrun, cursor_ahead, new_state, append_bounded, publish, oldest,
  find_gap, window_events, snapshot_stream_window, clear,
}
use rapid_inbox.Live.Numbering.{
  numbered, length-numbered, numbered-append, drop-numbered, snapshot_since-numbered,
}

module _ {ℓ} {E : Type ℓ} where
  -- The states of one generation, with the history of what was published in it.
  pub data Run (most : ℕ) (generation : String) : List E → LiveState E → Type ℓ where
    fresh : Run most generation [] (new_state most generation)
    cleared :
        (st : LiveState E) → st.max_events ≡ most → Run most generation [] (clear generation st)
    published :
        {h : List E} {st : LiveState E} (e : E)
        → Run most generation h st
        → Run most generation (h ++ e ∷ []) (publish e st)

  -- How many events of a history the ring has lost.
  abbrev pub lost : ℕ → List E → ℕ
  lost most h = length h - most

  -- The ring holds the end of the numbered history.
  pub record Follows (most : ℕ) (generation : String) (h : List E) (st : LiveState E) : Type ℓ where
    pub bound : st.max_events ≡ most
    pub named : st.generation ≡ generation
    pub numbering : st.next_seq ≡ suc (length h)
    pub kept : st.events ≡ numbered (suc (lost most h)) (drop (lost most h) h)

  append_bounded-numbered :
      (most : ℕ) (h : List E) (e : E) (d : ℕ)
      → d ≡ lost most h
      → append_bounded most
          (numbered (suc d) (drop d h))
          (record { seq = suc (length h); payload = e })
        ≡ numbered (suc (lost most (h ++ e ∷ []))) (drop (lost most (h ++ e ∷ [])) (h ++ e ∷ []))
  unfolding append_bounded
  append_bounded-numbered most h e d same =
      let all = h ++ e ∷ [] in
      let d' = lost most all in
      let end : suc d + length (drop d h) ≡ suc (length h) = omega (arith, length-drop d h) in
      let joined : numbered (suc d) (drop d h) ++ record { seq = suc (length h); payload = e } ∷ []
          ≡ numbered (suc d) (drop d all) =
        ap (λ n. numbered (suc d) (drop d h) ++ record { seq = n; payload = e } ∷ []) (sym end)
        ∙ sym (numbered-append (suc d) (drop d h) e)
        ∙ ap (numbered (suc d)) (sym (drop-append d h (e ∷ []) (omega arith))) in
      let more : length (numbered (suc d) (drop d all)) - most ≡ d' - d = omega (
        arith,
        length-numbered (suc d) (drop d all),
        length-drop d all,
        length-append h (e ∷ []),
      ) in
      let whole : d + (d' - d) ≡ d' = omega (arith, length-append h (e ∷ [])) in
      ap (λ xs. drop (length xs - most) xs) joined
      ∙ ap (λ n. drop n (numbered (suc d) (drop d all))) more
      ∙ drop-numbered (d' - d) (suc d) (drop d all)
      ∙ ap (numbered (suc d + (d' - d))) (drop-drop (d' - d) d all)
      ∙ ap (λ m. numbered m (drop (d + (d' - d)) all)) {x = suc d + (d' - d)} {y = suc d'}
          (omega (arith, whole))
      ∙ ap (λ n. numbered (suc d') (drop n all)) whole

  publish-Follows :
      (most : ℕ) (generation : String) (h : List E) (st : LiveState E) (e : E)
      → Follows most generation h st
      → Follows most generation (h ++ e ∷ []) (publish e st)
  unfolding publish
  publish-Follows most generation h st e f = record {
    bound = f.bound;
    named = f.named;
    numbering = omega (arith, f.numbering, length-append h (e ∷ []));
    kept = rw (f.bound, f.kept, f.numbering) (append_bounded-numbered most h e (lost most h) refl);
  }

  pub Run-Follows :
      (most : ℕ) (generation : String) (h : List E) (st : LiveState E)
      → Run most generation h st
      → Follows most generation h st
  unfolding numbered clear
  Run-Follows most generation h st fresh = record {
    bound = refl;
    named = refl;
    numbering = refl;
    kept = rw drop-nil;
  }
  Run-Follows most generation h st (cleared s b) = record {
    bound = b;
    named = refl;
    numbering = refl;
    kept = rw drop-nil;
  }
  Run-Follows most generation h st (published {h = h'} {st = st'} e r) =
      publish-Follows most generation h' st' e (Run-Follows most generation h' st' r)

window_cases :
    (seq d n : ℕ)
    → (d ≤ seq) × (seq ≤ n) × (find_gap true seq (suc d) n ≡ none)
      ⊎ (seq < d) × (find_gap true seq (suc d) n ≡ some ring_overrun)
      ⊎ (d ≤ n) × (n < seq) × (find_gap true seq (suc d) n ≡ some cursor_ahead)
      ⊎ (n < d)
unfolding find_gap
window_cases seq d n = ground arith

module _ {ℓ} {E : Type ℓ} where
  oldest-numbered : (k n : ℕ) (es : List E) → n ≡ k + length es → oldest n (numbered k es) ≡ k
  unfolding numbered
  oldest-numbered k n [] e = omega arith
  oldest-numbered k n (x ∷ es) e = refl

  -- The bounds that a window reports: the first event kept, and the last one published.
  pub window_bounds :
      (most : ℕ) (generation : String) (h : List E) (st : LiveState E) (expected : String) (seq : ℕ)
      → Run most generation h st
      → ((snapshot_stream_window expected seq st).latest_seq ≡ length h)
        × ((snapshot_stream_window expected seq st).oldest_seq ≡ suc (lost most h))
        × (length st.events ≤ most)
  unfolding snapshot_stream_window
  window_bounds most generation h st expected seq r =
      let f = Run-Follows most generation h st r in
      (
        omega (arith, f.numbering),
        rw f.kept (
            oldest-numbered (suc (lost most h)) st.next_seq (drop (lost most h) h)
              (omega (arith, f.numbering, length-drop (lost most h) h))),
        rw f.kept (
            omega (
              arith,
              length-numbered (suc (lost most h)) (drop (lost most h) h),
              length-drop (lost most h) h,
            )),
      )

  drop-all : (n : ℕ) (h : List E) → length h ≤ n → drop n h ≡ []
  drop-all n [] e = drop-nil n
  drop-all zero (x ∷ h) e = elim e [ ]
  drop-all (suc n) (x ∷ h) e = drop-all n h (omega arith)

  -- The filter gives the end of the history that starts after `seq`.
  newer_events :
      (seq d : ℕ) (h : List E) (events : List (Event E))
      → events ≡ numbered (suc d) (drop d h)
      → d ≤ seq
      → window_events none seq (length h) events ≡ numbered (suc seq) (drop seq h)
  unfolding numbered
  newer_events seq d h events e le = elim (Bool-cases (eqb seq (length h))) [
    | inl last ↦ rw (last, drop-all seq h (ground arith))
    | inr before ↦
        let rest : d + (suc seq - suc d) ≡ seq = omega arith in
        rw (before, e)
          (snapshot_since-numbered seq (suc d) (drop d h) (omega arith)
            ∙ ap (numbered (suc seq)) (drop-drop (suc seq - suc d) d h ∙ ap (λ n. drop n h) rest))
  ]

  -- What a reader that has seen `seq` events of a generation gets: exactly the events after them,
  -- in order, if none of those was lost; otherwise the reason why not, and all that the ring
  -- holds.
  pub stream_window_exact :
      (most : ℕ) (generation : String) (h : List E) (st : LiveState E) (seq : ℕ)
      → Run most generation h st
      → (lost most h ≤ seq)
          × (seq ≤ length h)
          × ((snapshot_stream_window generation seq st).gap_reason ≡ none)
          × ((snapshot_stream_window generation seq st).events ≡ numbered (suc seq) (drop seq h))
        ⊎ (seq < lost most h)
          × ((snapshot_stream_window generation seq st).gap_reason ≡ some ring_overrun)
          × ((snapshot_stream_window generation seq st).events ≡ st.events)
        ⊎ (length h < seq)
          × ((snapshot_stream_window generation seq st).gap_reason ≡ some cursor_ahead)
          × ((snapshot_stream_window generation seq st).events ≡ st.events)
  unfolding snapshot_stream_window
  stream_window_exact most generation h st seq r =
      let f = Run-Follows most generation h st r in
      let d = lost most h in
      let latest : st.next_seq - 1 ≡ length h = omega (arith, f.numbering) in
      let first : oldest st.next_seq st.events ≡ suc d = rw f.kept (
        oldest-numbered (suc d) st.next_seq (drop d h)
          (omega (arith, f.numbering, length-drop d h))) in
      let same : (generation == st.generation) ≡ true =
        (eq_iff generation st.generation).1 (sym f.named) in
      elim (window_cases seq d (length h)) [
        | inl (low, high, no_gap) ↦ inl (
          low,
          high,
          rw (same, first, latest) no_gap,
          rw (same, first, latest, no_gap) (newer_events seq d h st.events f.kept low),
        )
        | inr (inl (over, gap)) ↦
            inr (inl (over, rw (same, first, latest) gap, rw (same, first, latest, gap)))
        | inr (inr (inl (_, ahead, gap))) ↦
            inr (inr (ahead, rw (same, first, latest) gap, rw (same, first, latest, gap)))
        | inr (inr (inr none_such)) ↦ absurd (omega arith)
      ]
