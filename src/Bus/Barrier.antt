-- ===== src/Bus/Barrier.antt =====
-- message_bus.cpp, `MessageBus::barrier_sync`: the barrier of all workers over the two static atomics.
-- Each atomic access is one step of one thread; a thread calls the barrier again and again, and
-- counts in `rounds` the calls from which it has returned.
pub mod Invariant
pub mod Turns
pub mod Safety
use pregel.Common.{
  ℕ, suc, zero, ◌+◌, ◌==◌, List, [], ◌∷◌, if◌then◌else◌, length, get_or, set, replicate, ltb,
}
use pregel.Types.{u32, u64}

-- Where a thread stands in `barrier_sync`, with its local `epoch` where that is still read.
pub data Pc : Type 0 where
  working : Pc
  loaded : ℕ → Pc
  spinning : ℕ → Pc
  resetting : Pc
  bumping : Pc

pub record Thread : Type 0 where
  pub pc : Pc
  pub rounds : ℕ

-- `barrier_counter_` and `barrier_epoch_`.
pub record Shared : Type 0 where
  pub counter : ℕ
  pub epoch : ℕ

pub record Moved : Type 0 where
  pub shared : Shared
  pub thread : Thread

-- `arrived = fetch_add(1) + 1`, and the branch on `arrived == total_workers`.
unfoldable pub arrive : ℕ → Shared → ℕ → ℕ → Moved
arrive total s e r =
    let arrived = u64 (s.counter + 1) in
    record {
      shared = record s { counter = arrived };
      thread = record { pc = if arrived == total then resetting else spinning e; rounds = r };
    }

-- One access of one thread.
unfoldable pub advance_at : ℕ → Shared → Pc → ℕ → Moved
unfolding arrive
advance_at total s working r = record {
  shared = s;
  thread = record { pc = loaded s.epoch; rounds = r };
}
advance_at total s (loaded e) r = arrive total s e r
advance_at total s (spinning e) r = record {
  shared = s;
  thread =
      if s.epoch == e
      then record { pc = spinning e; rounds = r }
      else record { pc = working; rounds = suc r };
}
advance_at total s resetting r = record {
  shared = record s { counter = 0 };
  thread = record { pc = bumping; rounds = r };
}
advance_at total s bumping r = record {
  shared = record s { epoch = u32 (s.epoch + 1) };
  thread = record { pc = working; rounds = suc r };
}

unfoldable pub advance : ℕ → Shared → Thread → Moved
unfolding advance_at
advance total s t = advance_at total s t.pc t.rounds

pub record System : Type 0 where
  pub shared : Shared
  pub threads : List Thread

abbrev pub fresh : Thread
fresh = record { pc = working; rounds = 0 }

abbrev pub init : ℕ → System
init n = record { shared = record { counter = 0; epoch = 0 }; threads = replicate n fresh }

abbrev pub thread_of : System → ℕ → Thread
thread_of s i = get_or s.threads i fresh

-- Thread `i` of `n` makes its next access.
unfoldable pub turn : ℕ → System → ℕ → System
turn n s i =
    if ltb i (length s.threads)
    then (let m = advance n s.shared (thread_of s i) in
        record { shared = m.shared; threads = set s.threads i m.thread })
    else s

-- The threads take their turns in any order.
unfoldable pub run : ℕ → System → List ℕ → System
run n s [] = s
run n s (i ∷ is) = run n (turn n s i) is
