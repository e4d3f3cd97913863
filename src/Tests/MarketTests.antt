-- ===== src/Tests/MarketTests.antt =====
-- `build_order_book_graph`, `GraphEngine` on its graph, and main.cpp, at concrete inputs.
use Prim.Native.String.{String}
use pregel.Common.{
  ℕ, suc, ◌+◌, ◌*◌, ◌%◌, ◌≡◌, ◌↔◌, ◌⊎◌, refl, List, [], ◌∷◌, true, false, map, none, some, arith,
  pos, negsuc, Gives, ◌>>=◌,
}
use pregel.Types.{EngineConfig, default_config}
use pregel.Bus.{new_bus}
use pregel.Coordinator.{Coordinator, new_coordinator}
use pregel.Coordinator.Lively.{Busy}
use pregel.Coordinator.Summary.{print_summary}
use pregel.OrderBook.GraphVertex.{GraphVertex, base_of}
use pregel.OrderBook.Graph.{
  Source, OrderBookGraphParams, GraphData, owner_in, push_edge, venue_state, level_state,
  order_state,
}
use pregel.OrderBook.Graph.Loops.{
  build_order_book_graph, add_venues, add_venue, add_books, add_book, add_levels, add_level,
  open_level, add_orders, add_order, close_level, add_makers, add_maker, link_venues, sample_levels,
}
use pregel.OrderBook.Graph.Census.{IsGraph, build_order_book_graph-IsGraph}
use pregel.Engine.Market.{run_order_book}
use pregel.Engine.Market.Busy.{run_order_book-Busy, print_summary-counts}
use pregel.Main.{
  Outcome, Parsed, bytes, atoi, parse_args, main, set_number, skip_spaces, signed, scan, u32_of,
}
use pregel.Main.Options.{options, parse_args-options}
use pregel.Main.Failure.{run_order_book-fails, main-Busy}
use pregel.Tests.OrderBookTests.{count_draw}
use pregel.Tests.HeartbeatTests.{whole}
use pregel.Tests.WorkerTests.{steady, loaded}

abbrev pub counting : Source ℕ ℕ
counting = record {
  quantity = λ s. (100 + s % 9901, suc s);
  noise = λ s. (pos (s % 5), suc s);
  number = λ s. (s * 7919, suc s);
  seeded = λ n. n;
  clock = λ id. id;
}

abbrev small : OrderBookGraphParams
small = record {
  venue_count = 2;
  price_levels = 1;
  orders_per_level = 2;
  market_maker_count = 1;
  worker_count = 3;
}

-- The orders of a level are stored before the level.
abbrev summary : GraphData ℕ → List ℕ × ℕ × ℕ × ℕ
summary d =
    (map (λ v. (base_of v).id) d.vertices, d.total_edges, d.order_count, d.price_level_count)

small_ids :
    (build_order_book_graph counting small 7 >>= λ d. some (summary d))
    ≡ some (0 ∷ 1 ∷ 3 ∷ 4 ∷ 2 ∷ 6 ∷ 7 ∷ 5 ∷ 9 ∷ 10 ∷ 8 ∷ 12 ∷ 13 ∷ 11 ∷ 14 ∷ [], 32, 8, 4)
unfolding build_order_book_graph add_venues add_venue venue_state add_books add_book add_levels
    add_level open_level level_state add_orders add_order order_state close_level add_makers
    add_maker link_venues sample_levels owner_in push_edge
small_ids = refl

build_order_book_graph-IsGraph_example :
    Gives (IsGraph small) (build_order_book_graph counting small 7)
build_order_book_graph-IsGraph_example =
    build_order_book_graph-IsGraph counting small 7 (omega arith)

abbrev three_steps : EngineConfig
three_steps = record default_config { worker_count = 2; max_supersteps = 3 }

abbrev alone : EngineConfig
alone = record default_config { worker_count = 1; max_supersteps = 3 }

run_order_book-Busy_example :
    Gives
      (λ c. Busy 0 3 c.reports)
      (run_order_book whole counting count_draw steady
        (λ step. step)
        8
        8
        (λ w. pos 0)
        7
        (λ step w. (pos step, []))
        alone)
run_order_book-Busy_example =
    run_order_book-Busy whole counting count_draw steady (λ step. step) 8 8 (λ w. pos 0) 7
      (λ step w. (pos step, [])) alone refl (omega arith)

abbrev no_workers : EngineConfig
no_workers = record three_steps { worker_count = 0 }

run_order_book-fails_example :
    (run_order_book whole counting count_draw steady
        (λ step. step)
        8
        8
        (λ w. pos 0)
        7
        (λ step w. (pos step, []))
        no_workers
      ≡ none)
    ↔ ((no_workers.worker_count ≡ 0) ⊎ (no_workers.numa_nodes ≡ 0))
run_order_book-fails_example =
    run_order_book-fails whole counting count_draw steady (λ step. step) 8 8 (λ w. pos 0) 7
      (λ step w. (pos step, [])) no_workers

main-Busy_example :
    (c : Coordinator (GraphVertex ℕ) whole) × (main whole counting count_draw steady
        (λ step. step)
        8
        8
        (λ w. pos 0)
        7
        (λ step w. (pos step, []))
        (options (record default_config {
          worker_count = 1;
          max_supersteps = 12;
          numa_nodes = 1;
          enable_fault_injection = true;
          enable_rdma_sim = false;
        }))
      ≡ some (Outcome.ran c))
    × Busy 0 12 c.reports
main-Busy_example =
    main-Busy whole counting count_draw steady (λ step. step) 8 8 (λ w. pos 0) 7
      (λ step w. (pos step, [])) 12 1 true false (omega arith) (omega arith) (omega arith)

parse_args-options_example :
    let cfg : EngineConfig = record default_config {
      worker_count = 16;
      max_supersteps = 250;
      numa_nodes = 4;
      enable_fault_injection = true;
      enable_rdma_sim = false;
    } in
    parse_args (options cfg) default_config ≡ some (Parsed.configured cfg)
parse_args-options_example =
    parse_args-options 16 250 4 true false (omega arith) (omega arith) (omega arith)

abbrev args : List String → List (List ℕ)
args ss = map bytes ss

-- A missing number is no option, an option can be taken for a number, and unknown arguments are skipped.
odd_arguments :
    (parse_args (args ("--steps" ∷ "7" ∷ "--verbose" ∷ "--workers" ∷ [])) default_config
      ≡ some (Parsed.configured (record default_config { max_supersteps = 7 })))
    × (parse_args (args ("--workers" ∷ "--fault" ∷ [])) default_config
        ≡ some (Parsed.configured (record default_config { worker_count = 0 })))
    × (parse_args (args ("--workers" ∷ "-1" ∷ "--help" ∷ [])) default_config ≡ some Parsed.usage)
unfolding parse_args set_number atoi skip_spaces signed scan u32_of
odd_arguments = (refl, refl, refl)

atoi_texts :
    (atoi (bytes "  42x") ≡ some (pos 42))
    × (atoi (bytes "-3") ≡ some (negsuc 2))
    × (atoi (bytes "2147483648") ≡ none)
unfolding atoi skip_spaces signed scan
atoi_texts = (refl, refl, refl)

print_summary-counts_example :
    Gives
      (λ c.
        let s = print_summary c in
        (s.supersteps ≡ 3)
        × (s.rdma_operations ≡ 0)
        × (s.latency_spikes ≡ 0)
        × (s.numa_migrations ≡ 0))
      (run_order_book whole counting count_draw steady
        (λ step. step)
        8
        8
        (λ w. pos 0)
        7
        (λ step w. (pos step, []))
        three_steps)
print_summary-counts_example =
    print_summary-counts whole counting count_draw steady (λ step. step) 8 8 (λ w. pos 0) 7
      (λ step w. (pos step, [])) three_steps (omega arith) (omega arith) (omega arith) (omega arith)

-- No superstep is made, and the summary shows one.
no_superstep :
    (c : Coordinator (GraphVertex ℕ) whole) → c.current_step ≡ 0 → (print_summary c).supersteps ≡ 1
unfolding print_summary
no_superstep c e = rw e refl

-- A coordinator with one worker, which has the venue 1 and a halted order.
abbrev solo : Coordinator (GraphVertex ℕ) whole
solo = new_coordinator alone ((loaded, new_bus 0 1 true) ∷ []) 8 (λ w. pos 0)
