-- ===== src/Main/Options.antt =====
-- The arguments of main.cpp: options are read back.
use pregel.Common.{
  ℕ, suc, zero, ◌+◌, ◌/◌, ◌%◌, ◌^◌, ◌<◌, ◌≤◌, ◌≡◌, refl, ◌∙◌, ap, ap₂, List, [], ◌∷◌, ◌++◌, Bool,
  true, false, ltb, if◌then◌else◌, pos, some, arith,
}
use pregel.Types.{EngineConfig, default_config}
use pregel.Main.{
  Bytes, bytes, skip_spaces, scan, signed, atoi, u32_of, Parsed, set_number, parse_args,
}

-- The decimal digits of a number of at most `fuel` digits, in front of `out`.
abbrev pub show : ℕ → ℕ → Bytes → Bytes
show zero n out = out
show (suc fuel) n out =
    let rest = show fuel (n / 10) ((b'0' + n % 10) ∷ out) in
    if ltb n 10 then (b'0' + n) ∷ out else rest

-- An `int` has at most ten digits.
abbrev pub print : ℕ → Bytes
print n = show 10 n []

scan-show :
    (fuel n : ℕ) (out : Bytes) → n < 10 ^ suc fuel → scan (show (suc fuel) n out) 0 ≡ scan out n
unfolding scan
scan-show zero n out h = ground arith
scan-show (suc fuel) n out h = ground (arith, scan-show fuel (n / 10) ((b'0' + n % 10) ∷ out))

-- The text begins with a digit.
abbrev Starts : Bytes → Type 0
Starts [] = ⊥
Starts (c ∷ s) = (b'0' ≤ c) × (c ≤ b'9')

show-Starts : (fuel n : ℕ) (out : Bytes) → n < 10 ^ suc fuel → Starts (show (suc fuel) n out)
show-Starts zero n out h = ground arith
show-Starts (suc fuel) n out h = ground (arith, show-Starts fuel (n / 10) ((b'0' + n % 10) ∷ out))

atoi-Starts : (s : Bytes) → Starts s → scan s 0 < 2 ^ 31 → atoi s ≡ some (pos (scan s 0))
unfolding atoi skip_spaces signed
atoi-Starts [] h l = elim h [ ]
atoi-Starts (c ∷ s) h l = ground arith

-- Every non-negative `int` is read back from its digits.
pub atoi-print : (n : ℕ) → n < 2 ^ 31 → atoi (print n) ≡ some (pos n)
unfolding scan
atoi-print n h =
    let read : scan (print n) 0 ≡ n = scan-show 9 n [] (omega arith) in
    atoi-Starts (print n) (show-Starts 9 n [] (omega arith)) (omega (arith, read))
    ∙ ap (λ k. some (pos k)) read

u32_of-pos : (n : ℕ) → n < 2 ^ 31 → u32_of (pos n) ≡ n
unfolding u32_of
u32_of-pos n h = omega arith

-- The arguments that ask for a configuration.
abbrev numbers : EngineConfig → List Bytes → List Bytes
numbers cfg rest =
    bytes "--workers"
    ∷ print cfg.worker_count
    ∷ bytes "--steps"
    ∷ print cfg.max_supersteps
    ∷ bytes "--numa-nodes"
    ∷ print cfg.numa_nodes
    ∷ rest

abbrev switches : EngineConfig → List Bytes
switches cfg =
    (if cfg.enable_fault_injection then bytes "--fault" ∷ [] else [])
    ++ (if cfg.enable_rdma_sim then [] else bytes "--no-rdma" ∷ [])

abbrev pub options : EngineConfig → List Bytes
options cfg = numbers cfg (switches cfg)

parse_args-numbers :
    (cfg base : EngineConfig) (rest : List Bytes)
    → cfg.worker_count < 2 ^ 31
    → cfg.max_supersteps < 2 ^ 31
    → cfg.numa_nodes < 2 ^ 31
    → parse_args (numbers cfg rest) base
      ≡ parse_args rest (record base {
        worker_count = cfg.worker_count;
        max_supersteps = cfg.max_supersteps;
        numa_nodes = cfg.numa_nodes;
      })
unfolding parse_args set_number
parse_args-numbers cfg base rest h k l =
    rw
      (
        atoi-print cfg.worker_count h,
        atoi-print cfg.max_supersteps k,
        atoi-print cfg.numa_nodes l,
        u32_of-pos cfg.worker_count h,
        u32_of-pos cfg.max_supersteps k,
        u32_of-pos cfg.numa_nodes l,
      )
      refl

abbrev switched : Bool → Bool → EngineConfig → EngineConfig
switched fault rdma base = record base { enable_fault_injection = fault; enable_rdma_sim = rdma }

parse_args-switches :
    (fault rdma : Bool) (base : EngineConfig)
    → base.enable_fault_injection ≡ false
    → base.enable_rdma_sim ≡ true
    → parse_args (switches (switched fault rdma base)) base
      ≡ some (Parsed.configured (switched fault rdma base))
unfolding parse_args
parse_args-switches true true base f r = ap (λ b. some (Parsed.configured (switched true b base))) r
parse_args-switches true false base f r = refl
parse_args-switches false true base f r =
    ap₂ (λ a b. some (Parsed.configured (switched a b base))) f r
parse_args-switches false false base f r =
    ap (λ a. some (Parsed.configured (switched a false base))) f

-- A configuration whose numbers are below 2 ^ 31, and which differs from the default one only in what has an option, is read
-- back from its arguments.
pub parse_args-options :
    (workers steps nodes : ℕ) (fault rdma : Bool)
    → workers < 2 ^ 31
    → steps < 2 ^ 31
    → nodes < 2 ^ 31
    → let cfg : EngineConfig = record default_config {
      worker_count = workers;
      max_supersteps = steps;
      numa_nodes = nodes;
      enable_fault_injection = fault;
      enable_rdma_sim = rdma;
    } in
      parse_args (options cfg) default_config ≡ some (Parsed.configured cfg)
parse_args-options workers steps nodes fault rdma h k l =
    let base : EngineConfig = record default_config {
      worker_count = workers;
      max_supersteps = steps;
      numa_nodes = nodes;
    } in
    parse_args-numbers (switched fault rdma base) default_config
      (switches (switched fault rdma base)) h k l
    ∙ parse_args-switches fault rdma base refl refl
