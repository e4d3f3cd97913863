-- ===== src/Heartbeat/Detection.antt =====
-- `HeartbeatDetector`: which state a round of the monitor gives a worker.
use pregel.Common.{
  ℕ, ◌*◌, ◌<◌, ◌^◌, ◌≡◌, refl, ◌∙◌, sym, subst, [], ◌∷◌, ◌==◌, if◌then◌else◌, ◌||◌, Map, find,
  insert, find-insert, some, inl, inr, ℤ, pos, ◌-ℤ◌, ◌≤ℤ◌, arith, int_laws, true, lt→ltb, ==_iff,
  ==_refl, Bool-cases,
}
use pregel.Types.{u32}
use pregel.Heartbeat.{
  Floating, HeartbeatRecord, HeartbeatDetector, inject_failure, state_of, judge, check_worker,
  check_all, monitor, NodeState, alive, suspected, failed, is_failed, compute_phi, timed_out,
  ns_per_ms,
}

module _ {F : Floating} where
  -- The state that a round gives a worker with the record `r`.
  abbrev pub verdict : HeartbeatDetector F → ℤ × ℤ → HeartbeatRecord F → NodeState
  verdict d now r =
      if is_failed r.state
        || (F.geb (compute_phi now.0 r) d.phi_threshold || timed_out d.timeout_ms now.1 r)
      then failed
      else if F.geb (compute_phi now.0 r) (F.mul d.phi_threshold F.half)
      then suspected
      else alive

  find-check_all :
      (d : HeartbeatDetector F) (now : ℕ → ℤ × ℤ) (w : ℕ) (r : HeartbeatRecord F)
      (m : Map (HeartbeatRecord F))
      → find w m ≡ some r
      → find w (check_all d now m).0 ≡ some (check_worker d (now w).0 (now w).1 r).0
  unfolding find check_all
  find-check_all d now w r [] e = absurd cc
  find-check_all d now w r ((v, q) ∷ m) e = elim (Bool-cases (v == w)) [
    | inl hit ↦ rw hit (same ((==_iff v w).0 hit) (rw hit at e))
    | inr miss ↦ rw miss (find-check_all d now w r m (rw miss at e))
  ]
    where
      same :
          v ≡ w
          → some q ≡ some r
          → some (check_worker d (now v).0 (now v).1 q).0
            ≡ some (check_worker d (now w).0 (now w).1 r).0
      same h k = cc

  check_worker-verdict :
      (d : HeartbeatDetector F) (now : ℤ × ℤ) (r : HeartbeatRecord F)
      → (check_worker d now.0 now.1 r).0.state ≡ verdict d now r
  unfolding check_worker judge
  check_worker-verdict d now r = ground arith

  state_of-found :
      (d : HeartbeatDetector F) (w : ℕ) (r : HeartbeatRecord F)
      → find w d.records ≡ some r
      → state_of w d ≡ r.state
  unfolding state_of
  state_of-found d w r e = rw (e, state_of) refl

  -- A round of the monitor gives every worker with a record the state that its old state, its phi and
  -- its last beat call for: failed if it was failed, or if phi reaches the threshold or the last beat is longer
  -- ago than the timeout; suspected if phi reaches half the threshold; alive otherwise.
  pub monitor-verdict :
      (now : ℕ → ℤ × ℤ) (d : HeartbeatDetector F) (w : ℕ) (r : HeartbeatRecord F)
      → find w d.records ≡ some r
      → state_of w (monitor now d) ≡ verdict d (now w) r
  unfolding monitor
  monitor-verdict now d w r e =
      state_of-found (monitor now d) w _ (find-check_all d now w r d.records e)
      ∙ check_worker-verdict d (now w) r

  timed_out-injected :
      (timeout : ℕ) (now : ℤ) (r : HeartbeatRecord F)
      → 0 < timeout
      → timeout * 10 < 2 ^ 32
      → r.last_seen ≤ℤ now
      → timed_out timeout now
          (record r { last_seen = r.last_seen -ℤ pos (u32 (timeout * 10) * ns_per_ms) })
        ≡ true
  timed_out-injected timeout now r p b l = lt→ltb _ _ (omega (int_laws, small))
    where
      small : u32 (timeout * 10) ≡ timeout * 10
      small = omega arith

  abbrev pub overdue : HeartbeatDetector F → HeartbeatRecord F → HeartbeatRecord F
  overdue d r = record r { last_seen = r.last_seen -ℤ pos (u32 (d.timeout_ms * 10) * ns_per_ms) }

  inject_failure-found :
      (d : HeartbeatDetector F) (w : ℕ) (r : HeartbeatRecord F)
      → find w d.records ≡ some r
      → inject_failure w d ≡ record d { records = insert w (overdue d r) d.records }
  unfolding inject_failure
  inject_failure-found d w r e = rw (e, inject_failure) refl

  verdict-overdue :
      (d : HeartbeatDetector F) (now : ℤ × ℤ) (r : HeartbeatRecord F)
      → timed_out d.timeout_ms now.1 r ≡ true
      → verdict d now r ≡ failed
  verdict-overdue d now r h = ground (arith, h)

  -- A failure injected into a worker that has a record is found by the next round of the monitor, at
  -- any later time, if ten times the timeout is positive and fits 32 bits.
  pub injected_failure_found :
      (now : ℕ → ℤ × ℤ) (d : HeartbeatDetector F) (w : ℕ) (r : HeartbeatRecord F)
      → find w d.records ≡ some r
      → 0 < d.timeout_ms
      → d.timeout_ms * 10 < 2 ^ 32
      → r.last_seen ≤ℤ (now w).1
      → state_of w (monitor now (inject_failure w d)) ≡ failed
  injected_failure_found now d w r e p b l =
      subst (λ d'. state_of w (monitor now d') ≡ failed) (sym (inject_failure-found d w r e))
        (monitor-verdict now (record d { records = insert w (overdue d r) d.records }) w
            (overdue d r) (find-insert w w (overdue d r) d.records ∙ ground (arith, ==_refl w))
          ∙ verdict-overdue (record d { records = insert w (overdue d r) d.records }) (now w)
              (overdue d r) (timed_out-injected d.timeout_ms (now w).1 r p b l))
