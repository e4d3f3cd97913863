-- ===== src/Rdma.antt =====
-- rdma_transport.hpp and rdma_transport.cpp: the simulated RDMA layer.
pub mod QueuePair
pub mod Transport
