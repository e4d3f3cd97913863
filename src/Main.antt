-- ===== src/Main.antt =====
-- main.cpp: the loop over the arguments, and `main`. An argument is the list of its bytes. `std::atoi` is that of the
-- standard library; a number that does not fit an `int` is undefined there, and `none` here. The banner, the
-- usage text and the printed configuration are left out.
pub mod Options
pub mod Failure
use Prim.Native.Char.{code}
use Prim.Native.String.{String}
use pregel.Common.{
  ℕ, suc, zero, ◌+◌, ◌-◌, ◌*◌, ◌%◌, ◌^◌, ◌≤◌, List, [], ◌∷◌, Bool, true, false, ◌&&◌, ◌||◌, leb,
  ltb, ◌==◌, if◌then◌else◌, ℤ, pos, pos_part, neg_part, sub_ℕ, Option, none, some, ◌>>=◌,
}
use pregel.Types.{EngineConfig, default_config}
use pregel.Heartbeat.{Floating}
use pregel.Coordinator.{Schedule, Beat, Coordinator}
use pregel.OrderBook.GraphVertex.{GraphVertex}
use pregel.OrderBook.Graph.{Source}
use pregel.Engine.Market.{run_order_book}

abbrev pub Bytes : Type 0
Bytes = List ℕ

-- The bytes of an ASCII literal.
abbrev pub bytes : String → Bytes
bytes String.[] = []
bytes (String.◌∷◌ c s) = code c ∷ bytes s

abbrev pub equal : Bytes → Bytes → Bool
equal [] [] = true
equal [] (y ∷ ys) = false
equal (x ∷ xs) [] = false
equal (x ∷ xs) (y ∷ ys) = x == y && equal xs ys

abbrev pub is_space : ℕ → Bool
is_space c = c == 32 || leb 9 c && leb c 13

abbrev pub is_digit : ℕ → Bool
is_digit c = leb b'0' c && leb c b'9'

unfoldable pub skip_spaces : Bytes → Bytes
skip_spaces [] = []
skip_spaces (c ∷ s) = if is_space c then skip_spaces s else c ∷ s

-- The digits at the front of a text, read behind `n`.
unfoldable pub scan : Bytes → ℕ → ℕ
scan [] n = n
scan (c ∷ s) n = if is_digit c then scan s (n * 10 + (c - b'0')) else n

unfoldable pub signed : Bytes → ℤ
signed [] = pos 0
signed (c ∷ s) =
    if c == b'-'
    then sub_ℕ 0 (scan s 0)
    else if c == b'+'
    then pos (scan s 0)
    else pos (scan (c ∷ s) 0)

unfoldable pub atoi : Bytes → Option ℤ
unfolding skip_spaces signed
atoi s =
    let v = signed (skip_spaces s) in
    if ltb (pos_part v) (2 ^ 31) && leb (neg_part v) (2 ^ 31) then some v else none

-- An `int` converted to `uint32_t`.
unfoldable pub u32_of : ℤ → ℕ
u32_of v = (pos_part v + (2 ^ 32 - neg_part v)) % 2 ^ 32

-- What the tests of the loop find in an argument.
pub data Flag : Type 0 where
  workers steps numa_nodes fault no_rdma help other : Flag

abbrev pub flag_of : Bytes → Flag
flag_of arg =
    if equal arg (bytes "--workers")
    then Flag.workers
    else if equal arg (bytes "--steps")
    then Flag.steps
    else if equal arg (bytes "--numa-nodes")
    then Flag.numa_nodes
    else if equal arg (bytes "--fault")
    then Flag.fault
    else if equal arg (bytes "--no-rdma")
    then Flag.no_rdma
    else if equal arg (bytes "--help")
    then Flag.help
    else Flag.other

-- The usage, or the configuration to run.
pub data Parsed : Type 0 where
  usage : Parsed
  configured : EngineConfig → Parsed

-- An option with a number, which is the text `n`.
unfoldable pub set_number : Flag → Bytes → EngineConfig → Option EngineConfig
set_number flag n cfg = do
  v ← atoi n
  some (elim flag [
    | Flag.workers ↦ record cfg { worker_count = u32_of v }
    | Flag.steps ↦ record cfg { max_supersteps = u32_of v }
    | Flag.numa_nodes ↦ record cfg { numa_nodes = u32_of v }
    | _ ↦ cfg
  ])

-- The loop over the arguments that are left.
unfoldable pub parse_args : List Bytes → EngineConfig → Option Parsed
parse_args [] cfg = some (Parsed.configured cfg)
parse_args (arg ∷ []) cfg = elim (flag_of arg) [
  | Flag.fault ↦ some (Parsed.configured (record cfg { enable_fault_injection = true }))
  | Flag.no_rdma ↦ some (Parsed.configured (record cfg { enable_rdma_sim = false }))
  | Flag.help ↦ some Parsed.usage
  | _ ↦ some (Parsed.configured cfg)
]
parse_args (arg ∷ n ∷ rest) cfg = elim (flag_of arg) [
  | Flag.fault ↦ parse_args (n ∷ rest) (record cfg { enable_fault_injection = true })
  | Flag.no_rdma ↦ parse_args (n ∷ rest) (record cfg { enable_rdma_sim = false })
  | Flag.help ↦ some Parsed.usage
  | Flag.other ↦ parse_args (n ∷ rest) cfg
  | flag ↦ do cfg' ← set_number flag n cfg; parse_args rest cfg'
]

-- What `main` does after its banner; it always returns 0.
pub data Outcome (Rng : Type 0) (F : Floating) : Type 0 where
  printed_usage : Outcome Rng F
  ran : Coordinator (GraphVertex Rng) F → Outcome Rng F

module _ {S Rng : Type 0} (F : Floating) (R : Source S Rng) (draw : Rng → ℤ × Rng)
    (sched : Schedule) (time : ℕ → ℕ) (hardware : ℕ) (threshold : F.Double) (now : ℕ → ℤ) (seed : S)
    (clock : ℕ → ℕ → Beat) where
  unfoldable pub run_parsed : Parsed → Option (Outcome Rng F)
  run_parsed Parsed.usage = some Outcome.printed_usage
  run_parsed (Parsed.configured cfg) = do
    c ← run_order_book F R draw sched time hardware threshold now seed clock cfg
    some (Outcome.ran c)

  unfoldable pub main : List Bytes → Option (Outcome Rng F)
  main args = do p ← parse_args args default_config; run_parsed p
