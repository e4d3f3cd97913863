-- ===== src/Heartbeat.antt =====
-- heartbeat.hpp and .cpp, `HeartbeatDetector`. Points of the steady clock are in nanoseconds. A call under
-- the lock is one step. `double` and its functions are a parameter, the interface `Floating`; the comparison
-- of the milliseconds since the last beat with the timeout is exact on doubles (both are below
-- 2 ^ 53 nanoseconds), and is written on nanoseconds.
pub mod Records
pub mod Calls
pub mod Detection
use pregel.Common.{
  ℕ, suc, zero, ◌+◌, ◌*◌, ◌==◌, List, [], ◌∷◌, ◌++◌, Bool, true, false, ◌&&◌, ◌||◌, ltb,
  if◌then◌else◌, length, tail, replicate, Option, none, some, Map, find, insert, ℤ, pos, ◌-ℤ◌,
  ltb_ℤ,
}
use pregel.Types.{u32, u64}

-- The doubles that `compute_phi` uses: `nano` is 1e-9 and `femto` is 1e-15.
pub record Floating : Type 1 where
  pub Double : Type 0
  pub zero_double : Double
  pub half : Double
  pub one : Double
  pub two : Double
  pub nano : Double
  pub femto : Double
  pub of_size : ℕ → Double
  pub ms_of : ℤ → Double
  pub add : Double → Double → Double
  pub sub : Double → Double → Double
  pub mul : Double → Double → Double
  pub div : Double → Double → Double
  pub neg : Double → Double
  pub sqrt : Double → Double
  pub erfc : Double → Double
  pub log10 : Double → Double
  pub max_double : Double → Double → Double
  pub geb : Double → Double → Bool

pub data NodeState : Type 0 where
  alive suspected failed recovered : NodeState

-- A call of one of the two callbacks.
pub data Call : Type 0 where
  on_failure : ℕ → Call
  on_recovery : ℕ → Call

pub record HeartbeatRecord (F : Floating) : Type 0 where
  pub worker_id : ℕ
  pub last_seen : ℤ
  pub state : NodeState
  pub phi : F.Double
  pub beat_count : ℕ
  pub intervals : List F.Double

abbrev pub window : ℕ
window = 16

-- `failure_cb` and `recovery_cb` tell whether the callback is set; `calls` are the calls made so far.
pub record HeartbeatDetector (F : Floating) : Type 0 where
  pub local_id : ℕ
  pub worker_count : ℕ
  pub interval_ms : ℕ
  pub timeout_ms : ℕ
  pub phi_threshold : F.Double
  pub records : Map (HeartbeatRecord F)
  pub failure_cb : Bool
  pub recovery_cb : Bool
  pub calls : List Call

abbrev pub ns_per_ms : ℕ
ns_per_ms = 1_000_000

abbrev pub is_failed : NodeState → Bool
is_failed failed = true
is_failed _ = false

abbrev pub is_down : NodeState → Bool
is_down failed = true
is_down suspected = true
is_down _ = false

-- The window of a record after an interval was added.
abbrev pub cap_window {ℓ} : {A : Type ℓ} → List A → List A
cap_window xs = if ltb window (length xs) then tail xs else xs

abbrev pub sum_from : (F : Floating) → F.Double → List F.Double → F.Double
sum_from F s [] = s
sum_from F s (x ∷ xs) = sum_from F (F.add s x) xs

-- `for (double v : rec.intervals) var += (v - mean) * (v - mean);`
abbrev pub squares_from : (F : Floating) → F.Double → F.Double → List F.Double → F.Double
squares_from F mean s [] = s
squares_from F mean s (x ∷ xs) =
    squares_from F mean (F.add s (F.mul (F.sub x mean) (F.sub x mean))) xs

module _ {F : Floating} where
  abbrev pub new_record : ℕ → ℕ → ℤ → HeartbeatRecord F
  new_record worker interval now = record {
    worker_id = worker;
    last_seen = now;
    state = alive;
    phi = F.zero_double;
    beat_count = 0;
    intervals = replicate 8 (F.of_size interval);
  }

  -- The loop of the constructor over `n` workers; `now` is the time that each one reads.
  unfoldable pub new_records : ℕ → ℕ → ℕ → (ℕ → ℤ) → Map (HeartbeatRecord F)
  new_records zero local interval now = []
  new_records (suc n) local interval now =
      let rest = new_records n local interval now in
      if n == local then rest else insert n (new_record n interval (now n)) rest

  unfoldable pub new_detector :
      ℕ → ℕ → ℕ → ℕ → F.Double → Bool → Bool → (ℕ → ℤ) → HeartbeatDetector F
  new_detector local workers interval timeout threshold on_fail on_recover now = record {
    local_id = local;
    worker_count = workers;
    interval_ms = interval;
    timeout_ms = timeout;
    phi_threshold = threshold;
    records = new_records workers local interval now;
    failure_cb = on_fail;
    recovery_cb = on_recover;
    calls = [];
  }

  -- The record after a beat at `now`.
  unfoldable pub beat : ℤ → HeartbeatRecord F → HeartbeatRecord F
  beat now r = record r {
    intervals =
        if ltb 0 r.beat_count
        then cap_window (r.intervals ++ F.ms_of (now -ℤ r.last_seen) ∷ [])
        else r.intervals;
    last_seen = now;
    beat_count = u64 (r.beat_count + 1);
    state = alive;
    phi = F.zero_double;
  }

  unfoldable pub receive_heartbeat : ℕ → ℤ → HeartbeatDetector F → HeartbeatDetector F
  receive_heartbeat from now d = elim (find from d.records) [
    | none ↦ d
    | some r ↦ record d {
      records = insert from (beat now r) d.records;
      calls = d.calls ++ (if is_down r.state && d.recovery_cb then on_recovery from ∷ [] else []);
    }
  ]

  unfoldable pub inject_failure : ℕ → HeartbeatDetector F → HeartbeatDetector F
  inject_failure w d = elim (find w d.records) [
    | none ↦ d
    | some r ↦ record d {
      records =
          insert w
            (record r { last_seen = r.last_seen -ℤ pos (u32 (d.timeout_ms * 10) * ns_per_ms) })
            d.records;
    }
  ]

  unfoldable pub state_of : ℕ → HeartbeatDetector F → NodeState
  state_of w d = elim (find w d.records) [ none ↦ alive | some r ↦ r.state ]

  unfoldable pub phi_of : ℕ → HeartbeatDetector F → F.Double
  phi_of w d = elim (find w d.records) [ none ↦ F.zero_double | some r ↦ r.phi ]

  abbrev pub failed_in : Map (HeartbeatRecord F) → List ℕ
  failed_in [] = []
  failed_in ((w, r) ∷ m) = if is_failed r.state then w ∷ failed_in m else failed_in m

  abbrev pub failed_workers : HeartbeatDetector F → List ℕ
  failed_workers d = failed_in d.records

  -- `-log10(1 - CDF(elapsed))` of the window's mean and deviation.
  unfoldable pub phi_from : ℤ → HeartbeatRecord F → F.Double
  phi_from now r =
      let size = F.of_size (length r.intervals) in
      let mean = F.div (sum_from F F.zero_double r.intervals) size in
      let var = F.div (squares_from F mean F.zero_double r.intervals) size in
      let sigma = F.sqrt (F.add var F.nano) in
      let y = F.div (F.sub (F.ms_of (now -ℤ r.last_seen)) mean) sigma in
      let cdf = F.mul F.half (F.erfc (F.div (F.neg y) (F.sqrt F.two))) in
      F.neg (F.log10 (F.max_double (F.sub F.one cdf) F.femto))

  unfoldable pub compute_phi : ℤ → HeartbeatRecord F → F.Double
  compute_phi now r = elim r.intervals [ [] ↦ F.zero_double | x ∷ xs ↦ phi_from now r ]

  -- `ms_since > timeout_ms_`
  abbrev pub timed_out : ℕ → ℤ → HeartbeatRecord F → Bool
  timed_out timeout now r = ltb_ℤ (pos (timeout * ns_per_ms)) (now -ℤ r.last_seen)

  -- `check_worker` past its early return, with the new phi; `now` is its second reading of the clock.
  unfoldable pub judge :
      HeartbeatDetector F → F.Double → ℤ → HeartbeatRecord F → HeartbeatRecord F × List Call
  judge d phi now r =
      if F.geb phi d.phi_threshold || timed_out d.timeout_ms now r
      then (
        record r { phi = phi; state = failed },
        if d.failure_cb then on_failure r.worker_id ∷ [] else [],
      )
      else if F.geb phi (F.mul d.phi_threshold F.half)
      then (record r { phi = phi; state = suspected }, [])
      else (record r { phi = phi; state = alive }, [])

  unfoldable pub check_worker :
      HeartbeatDetector F → ℤ → ℤ → HeartbeatRecord F → HeartbeatRecord F × List Call
  check_worker d now₁ now₂ r =
      if is_failed r.state then (r, []) else judge d (compute_phi now₁ r) now₂ r

  -- The loop of one round of `monitor_loop`; `now` gives the readings of the clock for each worker.
  unfoldable pub check_all :
      HeartbeatDetector F
      → (ℕ → ℤ × ℤ)
      → Map (HeartbeatRecord F)
      → Map (HeartbeatRecord F) × List Call
  check_all d now [] = ([], [])
  check_all d now ((w, r) ∷ m) =
      let (r', calls) = check_worker d (now w).0 (now w).1 r in
      let (m', more) = check_all d now m in ((w, r') ∷ m', calls ++ more)

  unfoldable pub monitor : (ℕ → ℤ × ℤ) → HeartbeatDetector F → HeartbeatDetector F
  monitor now d =
      let (m, calls) = check_all d now d.records in
      record d { records = m; calls = d.calls ++ calls }
