-- ===== src/Coordinator/Beats.antt =====
-- `Coordinator::run`: what the beats of a superstep do to the failure detector.
use pregel.Common.{
  ℕ, suc, zero, ◌<◌, ◌≡◌, refl, ◌∙◌, ap, subst, sym, List, [], ◌∷◌, ◌==◌, if◌then◌else◌, find,
  insert, find-insert, some, Option-cases, Bool-cases, inl, inr, ℤ, arith, ==_iff, ℕ_discrete,
}
use pregel.Heartbeat.{
  Floating, HeartbeatRecord, HeartbeatDetector, alive, beat, receive_heartbeat, inject_failure,
  state_of,
}
use pregel.Heartbeat.Records.{Event, beats, injects, monitors, handle, handle_all}
use pregel.Coordinator.{Beat, beat_all}

-- The monitor does not look.
abbrev pub NoMonitor : List Event → Type 0
NoMonitor [] = Unit
NoMonitor (beats w now ∷ es) = NoMonitor es
NoMonitor (injects w ∷ es) = NoMonitor es
NoMonitor (monitors now ∷ es) = ⊥

module _ {F : Floating} where
  -- The state of a worker after a record has been written.
  state_of-insert :
      (v w : ℕ) (q : HeartbeatRecord F) (d : HeartbeatDetector F)
      → state_of w (record d { records = insert v q d.records })
        ≡ (if v == w then q.state else state_of w d)
  unfolding state_of
  state_of-insert v w q d = ground (arith, find-insert v w q d.records)

  state_of-found :
      (w : ℕ) (r : HeartbeatRecord F) (d : HeartbeatDetector F)
      → find w d.records ≡ some r
      → state_of w d ≡ r.state
  unfolding state_of
  state_of-found w r d e = rw (e, state_of) refl

  receive_own :
      (w : ℕ) (now : ℤ) (d : HeartbeatDetector F) → state_of w (receive_heartbeat w now d) ≡ alive
  unfolding receive_heartbeat state_of beat
  receive_own w now d = elim (Option-cases (find w d.records)) [
    | inl e ↦ rw (e, receive_heartbeat) (rw (e, state_of) refl)
    | inr (r, e) ↦
        rw (e, receive_heartbeat)
          (ground (arith, find-insert w w (beat now r) d.records, ==_iff w w))
  ]

  receive-alive :
      (v w : ℕ) (now : ℤ) (d : HeartbeatDetector F)
      → state_of w d ≡ alive
      → state_of w (receive_heartbeat v now d) ≡ alive
  unfolding receive_heartbeat state_of beat
  receive-alive v w now d a = elim (Option-cases (find v d.records)) [
    | inl e ↦ rw (e, receive_heartbeat) a
    | inr (r, e) ↦
        rw (e, receive_heartbeat) (ground (arith, a, find-insert v w (beat now r) d.records))
  ]

  inject-alive :
      (v w : ℕ) (d : HeartbeatDetector F)
      → state_of w d ≡ alive
      → state_of w (inject_failure v d) ≡ alive
  unfolding inject_failure state_of
  inject-alive v w d a = elim (Option-cases (find v d.records)) [
    | inl e ↦ rw (e, inject_failure) a
    | inr (r, e) ↦
        rw (e, inject_failure)
          (state_of-insert v w _ d ∙ elim (Bool-cases (v == w)) [
            | inl hit ↦
                rw hit
                  (sym (state_of-found v r d e) ∙ ap (λ i. state_of i d) ((==_iff v w).0 hit) ∙ a)
            | inr miss ↦ rw miss a
          ])
  ]

  handle_all-alive :
      (es : List Event) (w : ℕ) (d : HeartbeatDetector F)
      → NoMonitor es
      → state_of w d ≡ alive
      → state_of w (handle_all es d) ≡ alive
  unfolding handle_all handle
  handle_all-alive [] w d n a = a
  handle_all-alive (beats v now ∷ es) w d n a =
      handle_all-alive es w (receive_heartbeat v now d) n (receive-alive v w now d a)
  handle_all-alive (injects v ∷ es) w d n a =
      handle_all-alive es w (inject_failure v d) n (inject-alive v w d a)
  handle_all-alive (monitors now ∷ es) w d n a = elim n [ ]

  -- The beats of a superstep make every worker alive for the detector, whatever it thought of the worker before,
  -- if the monitor does not look between the worker's beat and the end of the beats; other beats and injected
  -- faults in between do not matter.
  pub beat_all-alive :
      (n w : ℕ) (found : ℕ → Beat) (d : HeartbeatDetector F)
      → w < n
      → ((v : ℕ) → w < v → NoMonitor (found v).1)
      → state_of w (beat_all n found d) ≡ alive
  unfolding beat_all
  beat_all-alive zero w found d l q = elim l [ ]
  beat_all-alive (suc n) w found d l q = elim (ℕ_discrete w n) [
    | yes e ↦
        subst (λ i. state_of i (beat_all (suc n) found d) ≡ alive) (sym e)
          (receive_own n (found n).0 (handle_all (found n).1 (beat_all n found d)))
    | no e ↦ receive-alive n w (found n).0 (handle_all (found n).1 (beat_all n found d)) (
        handle_all-alive (found n).1 w (beat_all n found d) (q n (omega arith))
          (beat_all-alive n w found d (omega arith) q))
  ]
