-- ===== src/Types.antt =====
-- types.hpp: the identifiers, messages, configuration and counters that all parts share.
-- VertexId, Superstep and quantities are natural numbers below 2 ^ 64, WorkerId below 2 ^ 32;
-- where the code's arithmetic can wrap, the wrap is written out.
use pregel.Common.{
  ℕ, ◌%◌, ◌^◌, ℤ, word_of, int_of, Bool, true, false, ◌≡◌, arith, ◌<◌, ◌≤◌, pos_part, neg_part,
  int_of-word_of,
}

abbrev pub u64 : ℕ → ℕ
u64 n = n % 2 ^ 64

abbrev pub u32 : ℕ → ℕ
u32 n = n % 2 ^ 32

pub data Side : Type 0 where
  bid ask : Side

pub data VertexType : Type 0 where
  order price_level venue market_maker : VertexType

pub data MsgType : Type 0 where
  order_fill price_update cancel_ack position_update arbitrage_signal heartbeat barrier_sync :
      MsgType

-- The union `Message::Payload`, 32 bytes, as its four 8-byte words. Each of its structs has its
-- fields at these words: fill (price, qty, trade_id), price (bid, ask, bid_qty, ask_qty),
-- arb (spread, venue_a, venue_b).
pub record Payload : Type 0 where
  pub word0 : ℕ
  pub word1 : ℕ
  pub word2 : ℕ
  pub word3 : ℕ

abbrev pub no_payload : Payload
no_payload = record { word0 = 0; word1 = 0; word2 = 0; word3 = 0 }

pub record Fill : Type 0 where
  pub price : ℤ
  pub qty : ℕ
  pub trade_id : ℕ

pub record PriceUpd : Type 0 where
  pub bid : ℤ
  pub ask : ℤ
  pub bid_qty : ℕ
  pub ask_qty : ℕ

pub record ArbSig : Type 0 where
  pub spread : ℤ
  pub venue_a : ℕ
  pub venue_b : ℕ

-- `payload.fill`, `payload.price` and `payload.arb`, read and written.
unfoldable pub read_fill : Payload → Fill
read_fill p = record { price = int_of p.word0; qty = p.word1; trade_id = p.word2 }

unfoldable pub read_price : Payload → PriceUpd
read_price p = record {
  bid = int_of p.word0;
  ask = int_of p.word1;
  bid_qty = p.word2;
  ask_qty = p.word3;
}

unfoldable pub read_arb : Payload → ArbSig
read_arb p = record { spread = int_of p.word0; venue_a = p.word1; venue_b = p.word2 }

unfoldable pub write_fill : Fill → Payload
write_fill f = record { word0 = word_of f.price; word1 = f.qty; word2 = f.trade_id; word3 = 0 }

unfoldable pub write_price : PriceUpd → Payload
write_price q = record {
  word0 = word_of q.bid;
  word1 = word_of q.ask;
  word2 = q.bid_qty;
  word3 = q.ask_qty;
}

unfoldable pub write_arb : ArbSig → Payload
write_arb a = record { word0 = word_of a.spread; word1 = a.venue_a; word2 = a.venue_b; word3 = 0 }

-- An integer that fits `int64_t`.
abbrev pub IsInt64 : ℤ → Type 0
IsInt64 a = (pos_part a < 2 ^ 63) × (neg_part a ≤ 2 ^ 63)

pub read_fill-write_fill : (f : Fill) → IsInt64 f.price → read_fill (write_fill f) ≡ f
unfolding read_fill write_fill
read_fill-write_fill f h = ground (arith, int_of-word_of f.price h.0 h.1)

pub read_price-write_price :
    (q : PriceUpd) → IsInt64 q.bid → IsInt64 q.ask → read_price (write_price q) ≡ q
unfolding read_price write_price
read_price-write_price q h k =
    ground (arith, int_of-word_of q.bid h.0 h.1, int_of-word_of q.ask k.0 k.1)

pub record Message : Type 0 where
  pub src : ℕ
  pub dst : ℕ
  pub type : MsgType
  pub step : ℕ
  pub payload : Payload

-- `sizeof(Message)`: alignas(64), 8 + 8 + 1 + 3 bytes, 4 of padding, 8 + 32 bytes.
abbrev pub sizeof_message : ℕ
sizeof_message = 64

-- `Message m{}`
abbrev pub blank_message : Message
blank_message = record {
  src = 0;
  dst = 0;
  type = MsgType.order_fill;
  step = 0;
  payload = no_payload;
}

-- `EngineConfig`, without `fault_probability` and `graph_type`, which no code reads.
pub record EngineConfig : Type 0 where
  pub worker_count : ℕ
  pub numa_nodes : ℕ
  pub vertex_count : ℕ
  pub edge_count_per_vertex : ℕ
  pub max_supersteps : ℕ
  pub heartbeat_interval_ms : ℕ
  pub failure_timeout_ms : ℕ
  pub rdma_buffer_size_kb : ℕ
  pub enable_rdma_sim : Bool
  pub enable_fault_injection : Bool

abbrev pub default_config : EngineConfig
default_config = record {
  worker_count = 4;
  numa_nodes = 2;
  vertex_count = 1_000_000;
  edge_count_per_vertex = 8;
  max_supersteps = 100;
  heartbeat_interval_ms = 500;
  failure_timeout_ms = 2000;
  rdma_buffer_size_kb = 256;
  enable_rdma_sim = true;
  enable_fault_injection = false;
}

-- `WorkerStats`, without the floating-point `throughput_vps`.
pub record WorkerStats : Type 0 where
  pub vertices_processed : ℕ
  pub messages_sent : ℕ
  pub messages_received : ℕ
  pub bytes_transferred : ℕ
  pub supersteps_completed : ℕ
  pub latency_spike_count : ℕ
  pub migrations_performed : ℕ
  pub rdma_ops : ℕ

abbrev pub zero_stats : WorkerStats
zero_stats = record {
  vertices_processed = 0;
  messages_sent = 0;
  messages_received = 0;
  bytes_transferred = 0;
  supersteps_completed = 0;
  latency_spike_count = 0;
  migrations_performed = 0;
  rdma_ops = 0;
}
