-- ===== src/Rdma/Transport/New.antt =====
-- What the constructor of `RdmaTransport` builds.
use native.Mathlib.Nat.{zero-add}
use pregel.Common.{
  ℕ, suc, zero, ◌+◌, ◌<◌, ◌≡◌, ◌≢◌, refl, ◌∙◌, sym, ◌==◌, if◌then◌else◌, get_or, All, none, some,
  arith, Bool, true, false,
}
use pregel.Rdma.QueuePair.{new_pair}
use pregel.Rdma.Transport.{new_pairs, new_transport}
use pregel.Rdma.Transport.Receive.{IsIdle}
use pregel.Rdma.Transport.Wires.{IsWired}

new_pairs-slot :
    (local i n d : ℕ)
    → d < n
    → i + d ≢ local
    → get_or (new_pairs local i n) d none ≡ some (new_pair local (i + d))
unfolding new_pairs
new_pairs-slot local i zero d l ne = elim l [ ]
new_pairs-slot local i (suc n) zero l ne = ground arith
new_pairs-slot local i (suc n) (suc d) l ne =
    ground (arith, new_pairs-slot local (suc i) n d (omega arith) (omega arith))

new_pairs-IsIdle : (local i n : ℕ) → All IsIdle (new_pairs local i n)
unfolding new_pairs
new_pairs-IsIdle local i zero = tt
new_pairs-IsIdle local i (suc n) = (first (i == local), new_pairs-IsIdle local (suc i) n)
  where
    first : (b : Bool) → IsIdle (if b then none else some (new_pair local i))
    first true = tt
    first false = (refl, refl, refl)

pub new_transport-IsIdle : (local n : ℕ) → All IsIdle (new_transport local n).qps
unfolding new_transport
new_transport-IsIdle local n = new_pairs-IsIdle local 0 n

pub new_transport-IsWired : (local n : ℕ) → IsWired local n (new_transport local n)
unfolding new_transport
new_transport-IsWired local n = record {
  mine = refl;
  all = refl;
  ops = omega arith;
  bytes = omega arith;
  pairs = λ w l ne.
      (new_pair local (0 + w), new_pairs-slot local 0 n w l (λ e. ne (sym (zero-add w) ∙ e)));
}
