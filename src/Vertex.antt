-- ===== src/Vertex.antt =====
-- vertex.hpp: the base class of all vertices, and its message sending.
use pregel.Common.{
  ℕ, ◌≡◌, List, [], ◌∷◌, ◌++◌, Bool, true, false, ◌==◌, if◌then◌else◌, ℤ, append_assoc, append-nil,
  arith,
}
use pregel.Types.{Message, VertexType}

pub record Edge : Type 0 where
  pub dst : ℕ
  pub weight : ℤ
  pub type : ℕ

pub record Vertex : Type 0 where
  pub id : ℕ
  pub type : VertexType
  pub owner : ℕ
  pub halted : Bool
  pub edges : List Edge
  pub outbox : List Message

abbrev pub new_vertex : ℕ → VertexType → ℕ → Vertex
new_vertex id type owner = record {
  id = id;
  type = type;
  owner = owner;
  halted = false;
  edges = [];
  outbox = [];
}

unfoldable pub set_owner : ℕ → Vertex → Vertex
set_owner w v = record v { owner = w }

unfoldable pub vote_to_halt : Vertex → Vertex
vote_to_halt v = record v { halted = true }

unfoldable pub wake_up : Vertex → Vertex
wake_up v = record v { halted = false }

unfoldable pub clear_outbox : Vertex → Vertex
clear_outbox v = record v { outbox = [] }

unfoldable pub send_message : ℕ → Message → Vertex → Vertex
send_message dst m v = record v { outbox = v.outbox ++ record m { src = v.id; dst = dst } ∷ [] }

-- `for (edge : edges_) send_message(edge.dst, m)`, over the edges that pass the test.
unfoldable pub send_along : (Edge → Bool) → Message → List Edge → Vertex → Vertex
send_along test m [] v = v
send_along test m (e ∷ es) v = send_along test m es (if test e then send_message e.dst m v else v)

abbrev pub every : Edge → Bool
every e = true

abbrev pub of_type : ℕ → Edge → Bool
of_type k e = e.type == k

-- The messages that such a loop sends.
abbrev pub copies : (Edge → Bool) → ℕ → Message → List Edge → List Message
copies test src m [] = []
copies test src m (e ∷ es) =
    if test e
    then record m { src = src; dst = e.dst } ∷ copies test src m es
    else copies test src m es

pub send_along_lem :
    (test : Edge → Bool) (m : Message) (es : List Edge) (v : Vertex)
    → send_along test m es v ≡ record v { outbox = v.outbox ++ copies test v.id m es }
unfolding send_along send_message
send_along_lem test m [] v = ground (arith, append-nil v.outbox)
send_along_lem test m (e ∷ es) v = ground (
  arith,
  send_along_lem test m es v,
  send_along_lem test m es
      (record v { outbox = v.outbox ++ record m { src = v.id; dst = e.dst } ∷ [] }),
  append_assoc v.outbox (record m { src = v.id; dst = e.dst } ∷ []) (copies test v.id m es),
)
