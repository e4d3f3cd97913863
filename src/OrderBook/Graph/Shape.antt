-- ===== src/OrderBook/Graph/Shape.antt =====
-- `build_order_book_graph`: what its loops keep true of the graph.
use pregel.Common.{
  weigh-write, ℕ, suc, zero, ◌+◌, ◌%◌, ◌<◌, ◌≤◌, ◌≡◌, refl, sym, ◌∙◌, ap, List, [], ◌∷◌, ◌++◌, ◌==◌,
  ltb, if◌then◌else◌, arith, All, All-set, All-elem, All-map, All-append, length, length-set,
  length-append, get_elem?, get_elem?-append, get_elem?-set_self, get_elem?-set_ne, get_elem?-last,
  set, weigh, weigh-append, some, Gives, false, Bool-cases, inl, inr, ==_iff,
}
use pregel.Types.{VertexType}
use pregel.Vertex.{Edge, Vertex}
use pregel.OrderBook.Venue.{VenueVertex}
use pregel.OrderBook.GraphVertex.{
  GraphVertex, order_vertex, level_vertex, venue_vertex, maker_vertex, base_of,
}
use pregel.OrderBook.Graph.{add_edge, push_edge, owner_in}

abbrev pub id_of : {Rng : Type 0} → GraphVertex Rng → ℕ
id_of v = (base_of v).id

-- One if the vertex has the id `x`.
abbrev pub named : {Rng : Type 0} → ℕ → GraphVertex Rng → ℕ
named x v = if id_of v == x then 1 else 0

abbrev pub degree : {Rng : Type 0} → GraphVertex Rng → ℕ
degree v = length (base_of v).edges

abbrev pub kind_of : {Rng : Type 0} → GraphVertex Rng → VertexType
kind_of (order_vertex v) = VertexType.order
kind_of (level_vertex v) = VertexType.price_level
kind_of (venue_vertex v) = VertexType.venue
kind_of (maker_vertex v) = VertexType.market_maker

-- The number for the kind: of orders, price levels, venues or market makers.
abbrev pub by_kind : VertexType → ℕ → ℕ → ℕ → ℕ → ℕ
by_kind VertexType.order o l v m = o
by_kind VertexType.price_level o l v m = l
by_kind VertexType.venue o l v m = v
by_kind VertexType.market_maker o l v m = m

abbrev pub same_kind : VertexType → VertexType → ℕ
same_kind t VertexType.order = by_kind t 1 0 0 0
same_kind t VertexType.price_level = by_kind t 0 1 0 0
same_kind t VertexType.venue = by_kind t 0 0 1 0
same_kind t VertexType.market_maker = by_kind t 0 0 0 1

-- One if the vertex is of the kind `t`.
abbrev pub of_kind : {Rng : Type 0} → VertexType → GraphVertex Rng → ℕ
of_kind t g = same_kind t (kind_of g)

-- One if `x` is below `n`.
abbrev pub below : ℕ → ℕ → ℕ
below n x = if ltb x n then 1 else 0

-- The vertex belongs to worker `id % w`, is active with an empty outbox, and its id and its edges are below `n`.
abbrev pub IsFresh : ℕ → ℕ → Vertex → Type 0
IsFresh w n v =
    (v.owner ≡ v.id % w)
    × (v.halted ≡ false)
    × (v.outbox ≡ [])
    × (v.id < n)
    × All (λ e. e.dst < n) v.edges

-- The vertex at `i` is the venue with the id `i`.
abbrev pub IsVenueAt : {Rng : Type 0} → List (GraphVertex Rng) → ℕ → Type 0
IsVenueAt {Rng} vs i =
    (v : VenueVertex Rng) × (get_elem? vs i ≡ some (venue_vertex v)) × (v.base.id ≡ i)

pub IsFresh-le : (w m n : ℕ) (v : Vertex) → m ≤ n → IsFresh w m v → IsFresh w n v
IsFresh-le w m n v l (o, h, x, i, e) =
    (o, h, x, omega arith, All-map (λ e k. omega arith) v.edges e)

pub IsFresh-add_edge :
    (w n : ℕ) (e : Edge) (v : Vertex) → e.dst < n → IsFresh w n v → IsFresh w n (add_edge e v)
IsFresh-add_edge w n e v l (o, h, x, i, es) = (o, h, x, i, All-append _ v.edges (e ∷ []) es (l, tt))

module _ {Rng : Type 0} where
  pub IsVenueAt-push :
      (vs us : List (GraphVertex Rng)) (i : ℕ) → IsVenueAt vs i → IsVenueAt (vs ++ us) i
  IsVenueAt-push vs us i (v, e, d) = (v, get_elem?-append vs us i (venue_vertex v) e, d)

  -- What an edge pushed to a venue does to the list of the vertices.
  pub record Pushed (w n : ℕ) (vs vs' : List (GraphVertex Rng)) : Type 0 where
    pub ids : (x : ℕ) → weigh (named x) vs' ≡ weigh (named x) vs
    pub kinds : (t : VertexType) → weigh (of_kind t) vs' ≡ weigh (of_kind t) vs
    pub degrees : weigh degree vs' ≡ suc (weigh degree vs)
    pub size : length vs' ≡ length vs
    pub fresh : All (λ v. IsFresh w n (base_of v)) vs → All (λ v. IsFresh w n (base_of v)) vs'
    pub venues : (j : ℕ) → IsVenueAt vs j → IsVenueAt vs' j

  pub push_edge-Pushed :
      (w n i : ℕ) (e : Edge) (vs : List (GraphVertex Rng))
      → IsVenueAt vs i
      → e.dst < n
      → Gives (Pushed w n vs) (push_edge i e vs)
  unfolding push_edge
  push_edge-Pushed w n i e vs (v, at, id) l =
      let u = venue_vertex (record v { base = add_edge e v.base }) in
      (
        set vs i u,
        rw at refl,
        record {
          ids = λ x. omega (arith, weigh-write (named x) vs i (venue_vertex v) u at);
          kinds = λ t. omega (arith, weigh-write (of_kind t) vs i (venue_vertex v) u at);
          degrees = omega (
            arith,
            weigh-write degree vs i (venue_vertex v) u at,
            length-append v.base.edges (e ∷ []),
          );
          size = length-set vs i u;
          fresh = λ a.
              All-set _ vs i u
                (IsFresh-add_edge w n e v.base l
                  (All-elem (λ v. IsFresh w n (base_of v)) vs i (venue_vertex v) at a))
                a;
          venues = λ j (k, f, g). elim (Bool-cases (i == j)) [
            | inl hit ↦ (
              record v { base = add_edge e v.base },
              ap (get_elem? (set vs i u)) (sym ((==_iff i j).0 hit))
                  ∙ get_elem?-set_self vs i (venue_vertex v) u at,
              id ∙ (==_iff i j).0 hit,
            )
            | inr miss ↦ (k, get_elem?-set_ne vs i j u (λ q. absurd (cc ((==_iff i j).1 q))) ∙ f, g)
          ];
        },
      )

pub owner_in-Gives : (w n : ℕ) → 0 < w → Gives (λ o. o ≡ n % w) (owner_in w n)
unfolding owner_in
owner_in-Gives zero n h = elim h [ ]
owner_in-Gives (suc w) n h = (n % suc w, refl, refl)

abbrev pub only : ℕ → ℕ → ℕ
only i x = if i == x then 1 else 0

abbrev pub nothing : ℕ → ℕ
nothing x = 0

module _ {Rng : Type 0} where
  -- Every id below `n` is that of one vertex, in the list or `aside`, every edge is counted in `total`, or
  -- is one of the `loose` edges of a vertex aside, and the vertices of the list are fresh.
  pub record Shape (w n : ℕ) (aside : ℕ → ℕ) (loose : ℕ) (vs : List (GraphVertex Rng)) (total : ℕ)
      : Type 0 where
    pub ids : (x : ℕ) → weigh (named x) vs + aside x ≡ below n x
    pub edges : total ≡ weigh degree vs + loose
    pub fresh : All (λ v. IsFresh w n (base_of v)) vs

  pub weigh-push :
      (f : GraphVertex Rng → ℕ) (vs : List (GraphVertex Rng)) (v : GraphVertex Rng)
      → weigh f (vs ++ v ∷ []) ≡ weigh f vs + f v
  unfolding weigh
  weigh-push f vs v = omega (arith, weigh-append f vs (v ∷ []))

  -- The next id is given to a vertex aside.
  pub take_id :
      {w n l t : ℕ} {a : ℕ → ℕ} {vs : List (GraphVertex Rng)}
      → Shape w n a l vs t
      → Shape w (suc n) (λ x. only n x + a x) l vs t
  take_id {w} {n} {l} {t} {a} {vs} s = record {
    ids = λ x. ground (arith, s.ids x);
    edges = s.edges;
    fresh = All-map (λ v. IsFresh-le w n (suc n) (base_of v) (omega arith)) vs s.fresh;
  }

  -- A vertex aside is put into the list.
  pub place :
      {w n l t : ℕ} {a : ℕ → ℕ} {vs : List (GraphVertex Rng)} (g : GraphVertex Rng)
      → IsFresh w n (base_of g)
      → Shape w n (λ x. only (id_of g) x + a x) (degree g + l) vs t
      → Shape w n a l (vs ++ g ∷ []) t
  place {w} {n} {l} {t} {a} {vs} g f s = record {
    ids = λ x. omega (arith, s.ids x, weigh-push (named x) vs g);
    edges = omega (arith, s.edges, weigh-push degree vs g);
    fresh = All-append (λ v. IsFresh w n (base_of v)) vs (g ∷ []) s.fresh (f, tt);
  }

  -- An edge of a vertex aside.
  pub loosen :
      {w n l t : ℕ} {a : ℕ → ℕ} {vs : List (GraphVertex Rng)} (k l' t' : ℕ)
      → l' ≡ l + k
      → t' ≡ t + k
      → Shape w n a l vs t
      → Shape w n a l' vs t'
  loosen k l' t' p q s = record {
    ids = s.ids;
    edges = omega (arith, s.edges, p, q);
    fresh = s.fresh;
  }

  -- An edge of a venue of the list.
  pub attach :
      {w n l t : ℕ} {a : ℕ → ℕ} {vs vs' : List (GraphVertex Rng)}
      → Pushed w n vs vs'
      → Shape w n a l vs t
      → Shape w n a l vs' (suc t)
  attach p s = record {
    ids = λ x. omega (arith, s.ids x, p.ids x);
    edges = omega (arith, s.edges, p.degrees);
    fresh = p.fresh s.fresh;
  }

  -- A venue with the id of its place.
  pub venue_pushed :
      (vs : List (GraphVertex Rng)) (v : VenueVertex Rng)
      → v.base.id ≡ length vs
      → ((i : ℕ) → i < length vs → IsVenueAt vs i)
      → (i : ℕ) → i < suc (length vs)
      → IsVenueAt (vs ++ venue_vertex v ∷ []) i
  venue_pushed vs v e h i l = elim (Bool-cases (i == length vs)) [
    | inl last ↦
        let q = (==_iff i (length vs)).0 last in
        (
          v,
          ap (get_elem? (vs ++ venue_vertex v ∷ [])) q ∙ get_elem?-last vs (venue_vertex v),
          e ∙ sym q,
        )
    | inr earlier ↦ IsVenueAt-push vs (venue_vertex v ∷ []) i (h i (ground (arith, earlier)))
  ]
