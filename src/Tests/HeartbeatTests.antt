-- ===== src/Tests/HeartbeatTests.antt =====
-- heartbeat.cpp at concrete inputs.
use pregel.Common.{
  ℕ, zero, suc, ◌+◌, ◌*◌, ◌-◌, ◌<◌, ◌≤◌, ◌≡◌, ◌≢◌, refl, ◌++◌, List, [], ◌∷◌, Bool, true, false,
  leb, weigh, some, arith, ℤ, pos, pos_part, find, AllV, max,
}
use pregel.Heartbeat.{
  Floating, HeartbeatRecord, HeartbeatDetector, new_detector, new_record, new_records,
  failed_workers, monitor, inject_failure, state_of, alive, failed,
}
use pregel.Heartbeat.Records.{
  Event, beats, injects, monitors, handle_all, IsTracked, handle_all-tracks,
}
use pregel.Coordinator.{Beat, beat_all}
use pregel.Coordinator.Beats.{beat_all-alive}
use pregel.Heartbeat.Calls.{fails, recovers, is_one, failures_reported_once}
use pregel.Heartbeat.Detection.{injected_failure_found}

-- Whole numbers in place of doubles.
abbrev pub whole : Floating
whole = record {
  Double = ℕ;
  zero_double = 0;
  half = 0;
  one = 1;
  two = 2;
  nano = 0;
  femto = 0;
  of_size = λ n. n;
  ms_of = λ d. pos_part d;
  add = λ a b. a + b;
  sub = λ a b. a - b;
  mul = λ a b. a * b;
  div = λ a b. a;
  neg = λ a. a;
  sqrt = λ a. a;
  erfc = λ a. a;
  log10 = λ a. a;
  max_double = λ a b. max a b;
  geb = λ a b. leb b a;
}

abbrev detector : HeartbeatDetector whole
detector = new_detector 0 3 500 2000 8 true true (λ w. pos 0)

-- A failure of worker 1 that is found, and its recovery.
abbrev outage : List Event
outage =
    injects 1
    ∷ monitors (λ w. (pos 1, pos 1))
    ∷ beats 1 (pos 2)
    ∷ monitors (λ w. (pos 3, pos 3))
    ∷ []

failures_reported_once_example :
    let d = handle_all {F = whole} outage detector in
    weigh (fails 1) d.calls ≤ weigh (recovers 1) d.calls + weigh (is_one 1) (failed_workers d)
failures_reported_once_example = failures_reported_once whole 0 3 500 2000 8 (λ w. pos 0) outage 1

handle_all-tracks_example :
    let d = handle_all {F = whole} outage detector in
    AllV (IsTracked {F = whole} 0) d.records × (state_of 0 d ≡ alive)
handle_all-tracks_example = handle_all-tracks whole 0 3 500 2000 8 true true (λ w. pos 0) outage

detector_cb : detector.failure_cb ≡ true
unfolding new_detector
detector_cb = refl

abbrev first_record : HeartbeatRecord whole
first_record = new_record 1 500 (pos 0)

detector_tracks : (find 1 detector.records ≡ some first_record) × (detector.timeout_ms ≡ 2000)
unfolding new_detector new_records pregel.Common.insert find
detector_tracks = (refl, refl)

injected_failure_found_example :
    state_of 1 (monitor (λ w. (pos 1, pos 1)) (inject_failure 1 detector)) ≡ failed
injected_failure_found_example =
    injected_failure_found (λ w. (pos 1, pos 1)) detector 1 first_record detector_tracks.0
      (omega (arith, detector_tracks.1)) (omega (arith, detector_tracks.1)) (omega arith)

-- The failure of worker 1 has been found.
abbrev failed_detector : HeartbeatDetector whole
failed_detector = handle_all (injects 1 ∷ monitors (λ w. (pos 1, pos 1)) ∷ []) detector

-- A fault of worker 1 is injected before every beat.
abbrev faulty_beats : ℕ → Beat
faulty_beats w = (pos 9, injects 1 ∷ [])

beat_all-alive_example : state_of 1 (beat_all 3 faulty_beats failed_detector) ≡ alive
beat_all-alive_example = beat_all-alive 3 1 faulty_beats failed_detector (omega arith) (λ v l. tt)
