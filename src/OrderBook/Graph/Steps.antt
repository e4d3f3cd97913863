-- ===== src/OrderBook/Graph/Steps.antt =====
-- `build_order_book_graph`: each round of its loops, on the graph that is being made.
use pregel.Common.{
  ℕ, suc, zero, ◌+◌, ◌<◌, ◌≡◌, refl, ◌∙◌, ap, List, [], ◌∷◌, ◌++◌, arith, All, All-map, All-append,
  length, length-append, subst, weigh, Gives, Gives-bind,
}
use pregel.Types.{Side, VertexType, u32}
use pregel.OrderBook.Order.{new_order}
use pregel.OrderBook.Venue.{new_venue}
use pregel.OrderBook.PriceLevel.{PriceLevelVertex}
use pregel.OrderBook.GraphVertex.{GraphVertex, order_vertex, level_vertex, venue_vertex}
use pregel.OrderBook.Graph.{Source, Build, add_edge, edge_to, venue_state, order_state}
use pregel.OrderBook.Graph.Shape.{
  IsFresh, IsFresh-le, IsFresh-add_edge, IsVenueAt, IsVenueAt-push, push_edge-Pushed,
  owner_in-Gives, only, nothing, Shape, take_id, place, loosen, attach, venue_pushed, of_kind,
  by_kind, weigh-push,
}
use pregel.OrderBook.Graph.Loops.{
  add_venue, add_order, add_orders, open_level, close_level, add_level,
}

-- How many venues there are, how many levels have been begun and finished, how many orders there are, and how
-- many market makers have been begun and finished.
pub record Sizes : Type 0 where
  pub venues : ℕ
  pub levels : ℕ
  pub closed : ℕ
  pub orders : ℕ
  pub makers : ℕ
  pub made : ℕ

abbrev pub venues_only : ℕ → Sizes
venues_only n = record { venues = n; levels = 0; closed = 0; orders = 0; makers = 0; made = 0 }

-- How many vertices of a kind the list holds.
abbrev pub tally : VertexType → Sizes → ℕ
tally t z = by_kind t z.orders z.closed z.venues z.made

-- A vertex more in the list.
pub kinds-push :
    {Rng : Type 0} (vs : List (GraphVertex Rng)) (g : GraphVertex Rng) (y z : Sizes)
    → ((t : VertexType) → weigh (of_kind t) vs ≡ tally t y)
    → z.orders ≡ y.orders + of_kind VertexType.order g
    → z.closed ≡ y.closed + of_kind VertexType.price_level g
    → z.venues ≡ y.venues + of_kind VertexType.venue g
    → z.made ≡ y.made + of_kind VertexType.market_maker g
    → (t : VertexType) → weigh (of_kind t) (vs ++ g ∷ []) ≡ tally t z
kinds-push vs g y z k o l v m VertexType.order =
    omega (arith, k VertexType.order, weigh-push (of_kind VertexType.order) vs g, o)
kinds-push vs g y z k o l v m VertexType.price_level =
    omega (arith, k VertexType.price_level, weigh-push (of_kind VertexType.price_level) vs g, l)
kinds-push vs g y z k o l v m VertexType.venue =
    omega (arith, k VertexType.venue, weigh-push (of_kind VertexType.venue) vs g, v)
kinds-push vs g y z k o l v m VertexType.market_maker =
    omega (arith, k VertexType.market_maker, weigh-push (of_kind VertexType.market_maker) vs g, m)

module _ {S Rng : Type 0} where
  pub record Known (z : Sizes) (b : Build S Rng) : Type 0 where
    pub venues : (i : ℕ) → i < z.venues → IsVenueAt b.graph.vertices i
    pub venue_ids : All (λ i. i < z.venues) b.venue_ids
    pub level_ids : All (λ i. i < b.next_id) b.price_level_ids
    pub venue_total : length b.venue_ids ≡ z.venues
    pub level_total : length b.price_level_ids ≡ z.levels
    pub venue_count : b.graph.venue_count ≡ z.venues
    pub level_count : b.graph.price_level_count ≡ u32 z.closed
    pub order_count : b.graph.order_count ≡ z.orders
    pub maker_count : b.graph.mm_count ≡ z.made
    pub next : b.next_id ≡ z.venues + z.levels + z.orders + z.makers
    pub kinds : (t : VertexType) → weigh (of_kind t) b.graph.vertices ≡ tally t z
    pub size : length b.graph.vertices ≡ z.venues + z.closed + z.orders + z.made

  -- The graph so far, with some vertices aside.
  pub record Partial (w : ℕ) (aside : ℕ → ℕ) (loose : ℕ) (z : Sizes) (b : Build S Rng)
      : Type 0 where
    pub shape : Shape w b.next_id aside loose b.graph.vertices b.graph.total_edges
    pub known : Known z b

module _ {S Rng : Type 0} (R : Source S Rng) (w : ℕ) (positive : 0 < w) where
  pub add_venue-Partial :
      (v n : ℕ) (b : Build S Rng)
      → Partial w nothing 0 (venues_only n) b
      → Gives (Partial w nothing 0 (venues_only (suc n))) (add_venue R w v b)
  unfolding add_venue
  add_venue-Partial v n b p = Gives-bind (owner_in-Gives w b.next_id positive) λ owner e. (
    _,
    refl,
    record {
      shape = place (venue_vertex _) (e, refl, refl, omega arith, tt) (take_id p.shape);
      known = record {
        venues = λ i l.
            venue_pushed b.graph.vertices _ (omega (arith, p.known.next, p.known.size))
              (λ j m. p.known.venues j (omega (arith, p.known.size))) i
              (omega (arith, p.known.size));
        venue_ids =
            All-append (λ i. i < suc n) b.venue_ids (b.next_id ∷ [])
              (All-map (λ i m. omega arith) b.venue_ids p.known.venue_ids)
              (omega (arith, p.known.next), tt);
        level_ids = All-map (λ i m. omega arith) b.price_level_ids p.known.level_ids;
        venue_total =
            omega (arith, p.known.venue_total, length-append b.venue_ids (b.next_id ∷ []));
        level_total = p.known.level_total;
        venue_count = ap suc p.known.venue_count;
        level_count = p.known.level_count;
        order_count = p.known.order_count;
        maker_count = p.known.maker_count;
        next = omega (arith, p.known.next);
        kinds =
            kinds-push b.graph.vertices _ (venues_only n) (venues_only (suc n)) p.known.kinds
              (omega arith) (omega arith) (omega arith) (omega arith);
        size = omega (
          arith,
          p.known.size,
          length-append b.graph.vertices
              (venue_vertex (new_venue R.seeded b.next_id owner (venue_state R v b.rng).0) ∷ []),
        );
      };
    },
  )

  -- The level `p` is aside.
  pub record Open (z : Sizes) (p : PriceLevelVertex) (b : Build S Rng) : Type 0 where
    pub fresh : IsFresh w b.next_id p.base
    pub shape :
        Shape w b.next_id
          (λ x. only p.base.id x + 0)
          (length p.base.edges + 0)
          b.graph.vertices
          b.graph.total_edges
    pub known : Known z b

  pub add_order-Open :
      (z : Sizes) (p : PriceLevelVertex) (b : Build S Rng)
      → Open z p b
      → Gives (λ r. Open (record z { orders = suc z.orders }) r.0 r.1) (add_order R w p b)
  unfolding add_order
  add_order-Open z p b h =
      let k = h.known in
      Gives-bind (owner_in-Gives w b.next_id positive) λ owner e.
        let (os, rng) = order_state R p.state.price p.state.side p.state.venue_id b.next_id b.rng in
        let o = new_order b.next_id owner os in
        let g = order_vertex (record o { base = add_edge (edge_to p.base.id 0) o.base }) in
        let more = length-append p.base.edges (edge_to b.next_id 1 ∷ []) in
        (
          _,
          refl,
          record {
            fresh =
                IsFresh-add_edge w (suc b.next_id) (edge_to b.next_id 1) p.base (omega arith)
                  (IsFresh-le w b.next_id (suc b.next_id) p.base (omega arith) h.fresh);
            shape =
                loosen {l = length p.base.edges + 0} {t = b.graph.total_edges + 1} 1 _ _
                  (omega (arith, more)) (omega arith)
                  (place g (e, refl, refl, omega arith, (omega (arith, h.fresh.3), tt))
                    (loosen {l = length p.base.edges + 0} 1 _ _ (omega arith) refl
                      (take_id h.shape)));
            known = record {
              venues = λ i l. IsVenueAt-push b.graph.vertices (g ∷ []) i (k.venues i l);
              venue_ids = k.venue_ids;
              level_ids = All-map (λ i m. omega arith) b.price_level_ids k.level_ids;
              venue_total = k.venue_total;
              level_total = k.level_total;
              venue_count = k.venue_count;
              level_count = k.level_count;
              order_count = ap suc k.order_count;
              maker_count = k.maker_count;
              next = omega (arith, k.next);
              kinds =
                  kinds-push b.graph.vertices g z (record z { orders = suc z.orders }) k.kinds
                    (omega arith) (omega arith) (omega arith) (omega arith);
              size = omega (arith, k.size, length-append b.graph.vertices (g ∷ []));
            };
          },
        )

  pub add_orders-Open :
      (left : ℕ) (z : Sizes) (p : PriceLevelVertex) (b : Build S Rng)
      → Open z p b
      → Gives (λ r. Open (record z { orders = z.orders + left }) r.0 r.1) (add_orders R w left p b)
  unfolding add_orders
  add_orders-Open zero z p b h =
      (_, refl, subst (λ n. Open (record z { orders = n }) p b) (omega arith) h)
  add_orders-Open (suc left) z p b h = Gives-bind (add_order-Open z p b h) λ r k.
      let (r', e, m) = add_orders-Open left (record z { orders = suc z.orders }) r.0 r.1 k in
      (r', e, subst (λ n. Open (record z { orders = n }) r'.0 r'.1) (omega arith) m)

  pub open_level-Open :
      (z : Sizes) (orders v vid : ℕ) (side : Side) (lvl : ℕ) (b : Build S Rng)
      → Partial w nothing 0 z b
      → vid < z.venues
      → Gives
          (λ r. Open (record z { levels = suc z.levels }) r.0 r.1)
          (open_level R w orders v vid side lvl b)
  unfolding open_level
  open_level-Open z orders v vid side lvl b h l =
      let k = h.known in
      Gives-bind (owner_in-Gives w b.next_id positive) λ owner e.
        Gives-bind
          (push_edge-Pushed w (suc b.next_id) vid (edge_to b.next_id 0) b.graph.vertices
            (k.venues vid l) (omega arith))
          λ vs p. (
            _,
            refl,
            record {
              fresh = (e, refl, refl, omega arith, (omega (arith, k.next), tt));
              shape =
                  loosen {l = 0} {t = suc b.graph.total_edges} 1 _ _ refl (omega arith)
                    (attach p (take_id h.shape));
              known = record {
                venues = λ i m. p.venues i (k.venues i m);
                venue_ids = k.venue_ids;
                level_ids =
                    All-append (λ i. i < suc b.next_id) b.price_level_ids (b.next_id ∷ [])
                      (All-map (λ i m. omega arith) b.price_level_ids k.level_ids)
                      (omega arith, tt);
                venue_total = k.venue_total;
                level_total =
                    omega (arith, k.level_total, length-append b.price_level_ids (b.next_id ∷ []));
                venue_count = k.venue_count;
                level_count = k.level_count;
                order_count = k.order_count;
                maker_count = k.maker_count;
                next = omega (arith, k.next);
                kinds = λ t. p.kinds t ∙ k.kinds t;
                size = p.size ∙ k.size;
              };
            },
          )

  pub close_level-Partial :
      (z : Sizes) (p : PriceLevelVertex) (b : Build S Rng)
      → Open z p b
      → Partial w nothing 0 (record z { closed = suc z.closed }) (close_level p b)
  unfolding close_level
  close_level-Partial z p b h =
      let k = h.known in
      record {
        shape = place (level_vertex p) h.fresh h.shape;
        known = record {
          venues = λ i l. IsVenueAt-push b.graph.vertices (level_vertex p ∷ []) i (k.venues i l);
          venue_ids = k.venue_ids;
          level_ids = k.level_ids;
          venue_total = k.venue_total;
          level_total = k.level_total;
          venue_count = k.venue_count;
          level_count = omega (arith, k.level_count);
          order_count = k.order_count;
          maker_count = k.maker_count;
          next = k.next;
          kinds =
              kinds-push b.graph.vertices (level_vertex p) z (record z { closed = suc z.closed })
                k.kinds (omega arith) (omega arith) (omega arith) (omega arith);
          size = omega (arith, k.size, length-append b.graph.vertices (level_vertex p ∷ []));
        };
      }

  -- One level more, with all its orders.
  pub add_level-Partial :
      (z : Sizes) (orders v vid : ℕ) (side : Side) (lvl : ℕ) (b : Build S Rng)
      → Partial w nothing 0 z b
      → vid < z.venues
      → Gives
          (Partial w nothing 0
            (record z { levels = suc z.levels; closed = suc z.closed; orders = z.orders + orders }))
          (add_level R w orders v vid side lvl b)
  unfolding add_level
  add_level-Partial z orders v vid side lvl b h l =
      Gives-bind (open_level-Open z orders v vid side lvl b h l) λ r k.
        Gives-bind (add_orders-Open orders (record z { levels = suc z.levels }) r.0 r.1 k) λ r' k'.
          (
            _,
            refl,
            close_level-Partial (record z { levels = suc z.levels; orders = z.orders + orders })
                r'.0 r'.1 k',
          )
