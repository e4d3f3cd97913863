-- ===== src/Heartbeat/Records.antt =====
-- `HeartbeatDetector`: which workers have a record, and how long its window is, after any calls.
use pregel.Common.{
  ℕ, suc, zero, ◌-◌, ◌-ℤ◌, ◌≤◌, ◌≡◌, ◌≢◌, refl, ◌∙◌, subst, List, [], ◌∷◌, ◌++◌, length,
  length-append, tail, ==_iff, ne→==, ℕ_discrete, Map, find, AllV, AllV-insert, AllV-find, none,
  Option-cases, inl, inr, ℤ, arith, Bool,
}
use pregel.Heartbeat.{
  Floating, HeartbeatRecord, HeartbeatDetector, window, new_records, new_detector, new_record, beat,
  receive_heartbeat, inject_failure, state_of, judge, check_worker, check_all, monitor, alive,
  cap_window,
}

-- A call to the detector: a beat, an injected failure, a round of the monitor.
pub data Event : Type 0 where
  beats : ℕ → ℤ → Event
  injects : ℕ → Event
  monitors : (ℕ → ℤ × ℤ) → Event

length-tail {ℓ} : {A : Type ℓ} (xs : List A) → length (tail xs) ≡ length xs - 1
length-tail [] = omega arith
length-tail (x ∷ xs) = omega arith

window_kept {ℓ} :
    {A : Type ℓ} (xs : List A) (x : A)
    → 8 ≤ length xs
    → length xs ≤ window
    → let ys = cap_window (xs ++ x ∷ []) in (8 ≤ length ys) × (length ys ≤ window)
window_kept xs x l h =
    let n = length-append xs (x ∷ []) in
    let t = length-tail (xs ++ x ∷ []) in (ground (arith, n, t), ground (arith, n, t))

module _ {F : Floating} where
  unfoldable pub handle : Event → HeartbeatDetector F → HeartbeatDetector F
  handle (beats w now) d = receive_heartbeat w now d
  handle (injects w) d = inject_failure w d
  handle (monitors now) d = monitor now d

  unfoldable pub handle_all : List Event → HeartbeatDetector F → HeartbeatDetector F
  handle_all [] d = d
  handle_all (e ∷ es) d = handle_all es (handle e d)

  -- A record stands under its own worker, which is not the local one, and its window is filled with 8
  -- to 16 intervals.
  pub record IsTracked (local w : ℕ) (r : HeartbeatRecord F) : Type 0 where
    pub own : r.worker_id ≡ w
    pub remote : w ≢ local
    pub low : 8 ≤ length r.intervals
    pub high : length r.intervals ≤ window

  abbrev pub IsWellFormed : HeartbeatDetector F → Type 0
  IsWellFormed d = AllV (IsTracked d.local_id) d.records

  beat-IsTracked :
      (local w : ℕ) (now : ℤ) (r : HeartbeatRecord F)
      → IsTracked local w r
      → IsTracked local w (beat now r)
  unfolding beat
  beat-IsTracked local w now r h = record {
    own = h.own;
    remote = h.remote;
    low =
        ground
          (arith, h.low, (window_kept r.intervals (F.ms_of (now -ℤ r.last_seen)) h.low h.high).0);
    high =
        ground
          (arith, h.high, (window_kept r.intervals (F.ms_of (now -ℤ r.last_seen)) h.low h.high).1);
  }

  check_worker-IsTracked :
      (local w : ℕ) (d : HeartbeatDetector F) (now₁ now₂ : ℤ) (r : HeartbeatRecord F)
      → IsTracked local w r
      → IsTracked local w (check_worker d now₁ now₂ r).0
  unfolding check_worker judge
  check_worker-IsTracked local w d now₁ now₂ r h = record {
    own = ground (arith, h.own);
    remote = h.remote;
    low = ground (arith, h.low);
    high = ground (arith, h.high);
  }

  check_all-IsTracked :
      (local : ℕ) (d : HeartbeatDetector F) (now : ℕ → ℤ × ℤ) (m : Map (HeartbeatRecord F))
      → AllV (IsTracked local) m
      → AllV (IsTracked local) (check_all d now m).0
  unfolding check_all
  check_all-IsTracked local d now [] a = tt
  check_all-IsTracked local d now ((w, r) ∷ m) a = (
    check_worker-IsTracked local w d (now w).0 (now w).1 r a.0,
    check_all-IsTracked local d now m a.1,
  )

  receive-IsWellFormed :
      (w : ℕ) (now : ℤ) (d : HeartbeatDetector F)
      → IsWellFormed d
      → IsWellFormed (receive_heartbeat w now d)
  unfolding receive_heartbeat
  receive-IsWellFormed w now d h = elim (Option-cases (find w d.records)) [
    | inl e ↦ rw (e, receive_heartbeat) h
    | inr (r, e) ↦
        rw (e, receive_heartbeat)
          (AllV-insert (IsTracked d.local_id) w (beat now r) d.records
            (beat-IsTracked d.local_id w now r (AllV-find (IsTracked d.local_id) w r d.records h e))
            h)
  ]

  inject-IsWellFormed :
      (w : ℕ) (d : HeartbeatDetector F) → IsWellFormed d → IsWellFormed (inject_failure w d)
  unfolding inject_failure
  inject-IsWellFormed w d h = elim (Option-cases (find w d.records)) [
    | inl e ↦ rw (e, inject_failure) h
    | inr (r, e) ↦
        let k = AllV-find (IsTracked d.local_id) w r d.records h e in
        rw (e, inject_failure)
          (AllV-insert (IsTracked d.local_id) w _ d.records
            (record { own = k.own; remote = k.remote; low = k.low; high = k.high }) h)
  ]

  pub handle-IsWellFormed :
      (e : Event) (d : HeartbeatDetector F) → IsWellFormed d → IsWellFormed (handle e d)
  unfolding handle monitor
  handle-IsWellFormed (beats w now) d h = receive-IsWellFormed w now d h
  handle-IsWellFormed (injects w) d h = inject-IsWellFormed w d h
  handle-IsWellFormed (monitors now) d h = check_all-IsTracked d.local_id d now d.records h

  -- No call changes the settings.
  pub handle_settings :
      (e : Event) (d : HeartbeatDetector F)
      → ((handle e d).local_id ≡ d.local_id)
        × ((handle e d).failure_cb ≡ d.failure_cb)
        × ((handle e d).recovery_cb ≡ d.recovery_cb)
  unfolding handle monitor receive_heartbeat inject_failure
  handle_settings (beats w now) d = elim (Option-cases (find w d.records)) [
    | inl e ↦ rw (e, receive_heartbeat) (refl, refl, refl)
    | inr (r, e) ↦ rw (e, receive_heartbeat) (refl, refl, refl)
  ]
  handle_settings (injects w) d = elim (Option-cases (find w d.records)) [
    | inl e ↦ rw (e, inject_failure) (refl, refl, refl)
    | inr (r, e) ↦ rw (e, inject_failure) (refl, refl, refl)
  ]
  handle_settings (monitors now) d = (refl, refl, refl)

  handle_all-IsWellFormed :
      (es : List Event) (d : HeartbeatDetector F)
      → IsWellFormed d
      → IsWellFormed (handle_all es d) × ((handle_all es d).local_id ≡ d.local_id)
  unfolding handle_all
  handle_all-IsWellFormed [] d h = (h, refl)
  handle_all-IsWellFormed (e ∷ es) d h =
      let k = handle_all-IsWellFormed es (handle e d) (handle-IsWellFormed e d h) in
      (k.0, k.1 ∙ (handle_settings e d).0)

  find-absent :
      (local : ℕ) (m : Map (HeartbeatRecord F)) → AllV (IsTracked local) m → find local m ≡ none
  unfolding find
  find-absent local [] a = refl
  find-absent local ((w, r) ∷ m) a =
      ground (arith, a.0.remote, find-absent local m a.1, ==_iff w local)

  local-alive :
      (local : ℕ) (d : HeartbeatDetector F)
      → AllV (IsTracked local) d.records
      → state_of local d ≡ alive
  unfolding state_of
  local-alive local d a = rw (find-absent local d.records a, state_of) refl

  local-unseen :
      (local : ℕ) (d : HeartbeatDetector F)
      → IsWellFormed d
      → d.local_id ≡ local
      → AllV (IsTracked local) d.records × (state_of local d ≡ alive)
  local-unseen local d h e =
      let a = subst (λ l. AllV (IsTracked l) d.records) e h in (a, local-alive local d a)

new_records-IsTracked :
    (F : Floating) (n local interval : ℕ) (now : ℕ → ℤ)
    → AllV (IsTracked {F = F} local) (new_records n local interval now)
unfolding new_records
new_records-IsTracked F zero local interval now = tt
new_records-IsTracked F (suc n) local interval now = elim (ℕ_discrete n local) [
  | yes e ↦ rw ((==_iff n local).1 e) (new_records-IsTracked F n local interval now)
  | no e ↦ rw (ne→== n local e) (
      AllV-insert (IsTracked local) n (new_record n interval (now n)) _
        (record { own = refl; remote = e; low = omega arith; high = omega arith })
        (new_records-IsTracked F n local interval now))
]

pub new_detector-IsWellFormed :
    (F : Floating) (local workers interval timeout : ℕ) (threshold : F.Double)
    (on_fail on_recover : Bool) (now : ℕ → ℤ)
    → IsWellFormed {F = F}
        (new_detector local workers interval timeout threshold on_fail on_recover now)
unfolding new_detector
new_detector-IsWellFormed F local workers interval timeout threshold on_fail on_recover now =
    new_records-IsTracked F workers local interval now

-- After any calls every record of a new detector stands under its own worker and has a window of 8 to 16
-- intervals, so that the mean of the window never divides by zero; and the local worker has no record:
-- whatever is injected or received for it, its state is alive.
pub handle_all-tracks :
    (F : Floating) (local workers interval timeout : ℕ) (threshold : F.Double)
    (on_fail on_recover : Bool) (now : ℕ → ℤ) (es : List Event)
    → let d =
        handle_all {F = F} es
          (new_detector local workers interval timeout threshold on_fail on_recover now) in
      AllV (IsTracked {F = F} local) d.records × (state_of local d ≡ alive)
unfolding new_detector
handle_all-tracks F local workers interval timeout threshold on_fail on_recover now es =
    let k =
      handle_all-IsWellFormed es
        (new_detector local workers interval timeout threshold on_fail on_recover now)
        (new_detector-IsWellFormed F local workers interval timeout threshold on_fail on_recover
          now) in
    local-unseen local
      (handle_all es (new_detector local workers interval timeout threshold on_fail on_recover now))
      k.0 k.1
