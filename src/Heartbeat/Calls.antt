-- ===== src/Heartbeat/Calls.antt =====
-- `HeartbeatDetector`: how often the callbacks are called.
use pregel.Common.{
  ℕ, ◌+◌, ◌≤◌, ◌≡◌, refl, ◌∙◌, ap, List, [], ◌∷◌, ◌==◌, if◌then◌else◌, weigh, weigh-append, ◌&&◌,
  Map, find, insert, AllV, some, Option-cases, inl, inr, ℤ, arith, true, ==_iff, Bool-cases,
}
use pregel.Heartbeat.{
  Floating, HeartbeatRecord, HeartbeatDetector, Call, on_failure, on_recovery, new_detector, beat,
  receive_heartbeat, inject_failure, judge, check_worker, check_all, monitor, is_failed, is_down,
  failed_in, failed_workers,
}
use pregel.Heartbeat.Records.{
  Event, beats, injects, monitors, handle, handle_all, IsTracked, IsWellFormed, handle-IsWellFormed,
  handle_settings, new_detector-IsWellFormed,
}

abbrev pub fails : ℕ → Call → ℕ
fails w (on_failure v) = if v == w then 1 else 0
fails w (on_recovery v) = 0

abbrev pub recovers : ℕ → Call → ℕ
recovers w (on_failure v) = 0
recovers w (on_recovery v) = if v == w then 1 else 0

abbrev pub is_one : ℕ → ℕ → ℕ
is_one w v = if v == w then 1 else 0

module _ {F : Floating} where
  abbrev down : ℕ → ℕ → HeartbeatRecord F → ℕ
  down w v r = if is_failed r.state then is_one w v else 0

  failed_in-cons :
      (w v : ℕ) (r : HeartbeatRecord F) (m : Map (HeartbeatRecord F))
      → weigh (is_one w) (failed_in ((v, r) ∷ m)) ≡ down w v r + weigh (is_one w) (failed_in m)
  unfolding weigh
  failed_in-cons w v r m = ground arith

  failed_in-insert :
      (w v : ℕ) (r r' : HeartbeatRecord F) (m : Map (HeartbeatRecord F))
      → find v m ≡ some r
      → weigh (is_one w) (failed_in (insert v r' m)) + down w v r
        ≡ weigh (is_one w) (failed_in m) + down w v r'
  unfolding find insert
  failed_in-insert w v r r' [] e = absurd cc
  failed_in-insert w v r r' ((u, q) ∷ m) e = elim (Bool-cases (u == v)) [
    | inl hit ↦ rw hit (
        omega (
          arith,
          failed_in-cons w v r' m,
          failed_in-cons w u q m,
          ap (λ k. down w k q) ((==_iff u v).0 hit),
          ap (λ k. down w v k) (same_record (rw hit at e)),
        ))
    | inr miss ↦ rw miss (
        omega (
          arith,
          failed_in-cons w u q (insert v r' m),
          failed_in-cons w u q m,
          failed_in-insert w v r r' m (rw miss at e),
        ))
  ]
    where
      same_record : some q ≡ some r → q ≡ r
      same_record h = cc

  -- One worker's check: it reports the failure that it finds, under the worker's id.
  check_worker-calls :
      (d : HeartbeatDetector F) (w : ℕ) (now₁ now₂ : ℤ) (r : HeartbeatRecord F)
      → d.failure_cb ≡ true
      → let c = check_worker d now₁ now₂ r in
        (weigh (fails w) c.1 + down w r.worker_id r ≡ down w r.worker_id c.0)
        × (weigh (recovers w) c.1 ≡ 0)
  unfolding check_worker judge weigh
  check_worker-calls d w now₁ now₂ r cb = (ground arith, ground arith)

  check_all-calls :
      (local : ℕ) (d : HeartbeatDetector F) (w : ℕ) (now : ℕ → ℤ × ℤ) (m : Map (HeartbeatRecord F))
      → d.failure_cb ≡ true
      → AllV (IsTracked local) m
      → let c = check_all d now m in
        (weigh (fails w) c.1 + weigh (is_one w) (failed_in m) ≡ weigh (is_one w) (failed_in c.0))
        × (weigh (recovers w) c.1 ≡ 0)
  unfolding check_all weigh
  check_all-calls local d w now [] cb a = (refl, refl)
  check_all-calls local d w now ((v, r) ∷ m) cb a =
      let k = check_worker-calls d w (now v).0 (now v).1 r cb in
      let c = check_worker d (now v).0 (now v).1 r in
      let rest = check_all d now m in
      let n = check_all-calls local d w now m cb a.1 in
      (
        omega (
          arith,
          k.0,
          n.0,
          weigh-append (fails w) c.1 rest.1,
          failed_in-cons w v r m,
          failed_in-cons w v c.0 rest.0,
          ap (λ j. down w j r) a.0.own,
          ap (λ j. down w j c.0) a.0.own,
        ),
        omega (arith, k.1, n.1, weigh-append (recovers w) c.1 rest.1),
      )

  -- What the calls so far and the failed workers come to: a worker's failures are reported at most once
  -- more often than its recoveries, and only while it is failed.
  abbrev pub IsBalanced : ℕ → HeartbeatDetector F → Type 0
  IsBalanced w d =
      weigh (fails w) d.calls ≤ weigh (recovers w) d.calls + weigh (is_one w) (failed_workers d)

  abbrev answer : ℕ → HeartbeatDetector F → HeartbeatRecord F → List Call
  answer v d r = if is_down r.state && d.recovery_cb then on_recovery v ∷ [] else []

  recovery_calls :
      (w v : ℕ) (d : HeartbeatDetector F) (r : HeartbeatRecord F)
      → d.recovery_cb ≡ true
      → (weigh (fails w) (answer v d r) ≡ 0) × (down w v r ≤ weigh (recovers w) (answer v d r))
  unfolding weigh
  recovery_calls w v d r cb = (ground arith, ground arith)

  receive-IsBalanced :
      (w v : ℕ) (now : ℤ) (d : HeartbeatDetector F)
      → d.recovery_cb ≡ true
      → IsBalanced w d
      → IsBalanced w (receive_heartbeat v now d)
  unfolding receive_heartbeat beat weigh
  receive-IsBalanced w v now d cb b = elim (Option-cases (find v d.records)) [
    | inl e ↦ rw (e, receive_heartbeat) b
    | inr (r, e) ↦
        rw (e, receive_heartbeat)
          (omega (
            arith,
            b,
            failed_in-insert w v r (beat now r) d.records e,
            (recovery_calls w v d r cb).0,
            (recovery_calls w v d r cb).1,
            weigh-append (fails w) d.calls (answer v d r),
            weigh-append (recovers w) d.calls (answer v d r),
          ))
  ]

  inject-IsBalanced :
      (w v : ℕ) (d : HeartbeatDetector F) → IsBalanced w d → IsBalanced w (inject_failure v d)
  unfolding inject_failure
  inject-IsBalanced w v d b = elim (Option-cases (find v d.records)) [
    | inl e ↦ rw (e, inject_failure) b
    | inr (r, e) ↦ rw (e, inject_failure) (omega (arith, b, failed_in-insert w v r _ d.records e))
  ]

  monitor-IsBalanced :
      (w : ℕ) (now : ℕ → ℤ × ℤ) (d : HeartbeatDetector F)
      → d.failure_cb ≡ true
      → IsWellFormed d
      → IsBalanced w d
      → IsBalanced w (monitor now d)
  unfolding monitor
  monitor-IsBalanced w now d cb h b =
      let c = check_all d now d.records in
      let k = check_all-calls d.local_id d w now d.records cb h in
      omega (
        arith,
        b,
        k.0,
        k.1,
        weigh-append (fails w) d.calls c.1,
        weigh-append (recovers w) d.calls c.1,
      )

  handle-IsBalanced :
      (w : ℕ) (e : Event) (d : HeartbeatDetector F)
      → d.failure_cb ≡ true
      → d.recovery_cb ≡ true
      → IsWellFormed d
      → IsBalanced w d
      → IsBalanced w (handle e d)
  unfolding handle
  handle-IsBalanced w (beats v now) d f r h b = receive-IsBalanced w v now d r b
  handle-IsBalanced w (injects v) d f r h b = inject-IsBalanced w v d b
  handle-IsBalanced w (monitors now) d f r h b = monitor-IsBalanced w now d f h b

  handle_all-IsBalanced :
      (w : ℕ) (es : List Event) (d : HeartbeatDetector F)
      → d.failure_cb ≡ true
      → d.recovery_cb ≡ true
      → IsWellFormed d
      → IsBalanced w d
      → IsBalanced w (handle_all es d)
  unfolding handle_all
  handle_all-IsBalanced w [] d f r h b = b
  handle_all-IsBalanced w (e ∷ es) d f r h b =
      let k = handle_settings e d in
      handle_all-IsBalanced w es (handle e d) (k.1 ∙ f) (k.2 ∙ r) (handle-IsWellFormed e d h)
        (handle-IsBalanced w e d f r h b)

-- With both callbacks set, after any calls of a new detector, the failures reported of a worker are at most as
-- many as the recoveries reported of it and the times it stands among the failed workers: a
-- failure is not reported again before the worker has recovered.
pub failures_reported_once :
    (F : Floating) (local workers interval timeout : ℕ) (threshold : F.Double) (now : ℕ → ℤ)
    (es : List Event) (w : ℕ)
    → let d =
        handle_all {F = F} es
          (new_detector local workers interval timeout threshold true true now) in
      weigh (fails w) d.calls ≤ weigh (recovers w) d.calls + weigh (is_one w) (failed_workers d)
unfolding new_detector weigh
failures_reported_once F local workers interval timeout threshold now es w =
    handle_all-IsBalanced w es (new_detector local workers interval timeout threshold true true now)
      refl refl (new_detector-IsWellFormed F local workers interval timeout threshold true true now)
      (omega arith)

-- A round of the monitor, with the failure callback set, reports each worker exactly as often as it
-- enters the failed workers, and no recovery.
pub monitor_reports :
    (F : Floating) (now : ℕ → ℤ × ℤ) (d : HeartbeatDetector F) (w : ℕ)
    → IsWellFormed d
    → d.failure_cb ≡ true
    → (weigh (fails w) (monitor now d).calls + weigh (is_one w) (failed_workers d)
        ≡ weigh (fails w) d.calls + weigh (is_one w) (failed_workers (monitor now d)))
      × (weigh (recovers w) (monitor now d).calls ≡ weigh (recovers w) d.calls)
unfolding monitor
monitor_reports F now d w h cb =
    let c = check_all d now d.records in
    let k = check_all-calls d.local_id d w now d.records cb h in
    (
      omega (arith, k.0, weigh-append (fails w) d.calls c.1),
      omega (arith, k.1, weigh-append (recovers w) d.calls c.1),
    )
