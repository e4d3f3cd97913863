-- ===== src/OrderBook/Graph/Makers.antt =====
-- `build_order_book_graph`: the rounds of the loop over the market makers.
use pregel.Common.{
  ℕ, suc, zero, ◌+◌, ◌%◌, ◌<◌, ◌≤◌, ◌≡◌, refl, ◌∙◌, ap, List, [], ◌∷◌, arith, All, All-elem,
  All-map, length, length-append, get_elem?, get_elem?-lt, min, Gives, Gives-bind,
}
use pregel.OrderBook.MarketMaker.{MarketMakerVertex, new_maker}
use pregel.OrderBook.GraphVertex.{maker_vertex}
use pregel.OrderBook.Graph.{Source, Build, add_edge, edge_to, push_vertex, maker_state}
use pregel.OrderBook.Graph.Shape.{
  IsFresh, IsFresh-add_edge, IsVenueAt-push, push_edge-Pushed, owner_in-Gives, only, nothing, Shape,
  take_id, place, loosen, attach,
}
use pregel.OrderBook.Graph.Loops.{link_venues, sample_levels, add_maker}
use pregel.OrderBook.Graph.Steps.{Sizes, Known, Partial, kinds-push}

there : {P : ℕ → Type 0} (xs : List ℕ) (i : ℕ) → i < length xs → All P xs → Gives P (get_elem? xs i)
there {P} xs i l a = let (x, e) = get_elem?-lt xs i l in (x, e, All-elem P xs i x e a)

module _ {S Rng : Type 0} (R : Source S Rng) (w : ℕ) (positive : 0 < w) where
  -- The market maker `m`, whose edges are not in the list.
  pub record Trading (z : Sizes) (m : MarketMakerVertex) (b : Build S Rng) : Type 0 where
    pub fresh : IsFresh w b.next_id m.base
    pub shape :
        Shape w b.next_id
          (λ x. only m.base.id x + 0)
          (length m.base.edges + 0)
          b.graph.vertices
          b.graph.total_edges
    pub known : Known z b

  pub link_venues-Trading :
      (vids : List ℕ) (z : Sizes) (m : MarketMakerVertex) (b : Build S Rng)
      → Trading z m b
      → All (λ i. i < z.venues) vids
      → Gives (λ r. Trading z r.0 (record b { graph = r.1 })) (link_venues vids m b.graph)
  unfolding link_venues
  link_venues-Trading [] z m b h a = (_, refl, h)
  link_venues-Trading (vid ∷ vids) z m b h a =
      let k = h.known in
      let more = length-append m.base.edges (edge_to vid 0 ∷ []) in
      Gives-bind
        (push_edge-Pushed w b.next_id vid (edge_to m.base.id 3) b.graph.vertices (k.venues vid a.0)
          h.fresh.3)
        λ vs p.
          link_venues-Trading vids z (record m { base = add_edge (edge_to vid 0) m.base })
            (record b {
              graph = record b.graph { vertices = vs; total_edges = b.graph.total_edges + 2 };
            })
            (record {
              fresh =
                  IsFresh-add_edge w b.next_id (edge_to vid 0) m.base (omega (arith, a.0, k.next))
                    h.fresh;
              shape =
                  loosen {l = length m.base.edges + 0} {t = suc b.graph.total_edges} 1 _ _
                    (omega (arith, more)) (omega arith) (attach p h.shape);
              known = record {
                venues = λ i l. p.venues i (k.venues i l);
                venue_ids = k.venue_ids;
                level_ids = k.level_ids;
                venue_total = k.venue_total;
                level_total = k.level_total;
                venue_count = k.venue_count;
                level_count = k.level_count;
                order_count = k.order_count;
                maker_count = k.maker_count;
                next = k.next;
                kinds = λ t. p.kinds t ∙ k.kinds t;
                size = p.size ∙ k.size;
              };
            })
            a.1

  pub sample_levels-Trading :
      (left : ℕ) (z : Sizes) (m : MarketMakerVertex) (b : Build S Rng)
      → Trading z m b
      → left ≤ length b.price_level_ids
      → Gives (λ r. Trading z r.0 r.1) (sample_levels R w left m b)
  unfolding sample_levels
  sample_levels-Trading zero z m b h l = (_, refl, h)
  sample_levels-Trading (suc left) z m b h l =
      let k = h.known in
      let (n, rng) = R.number b.rng in
      let more = length-append m.base.edges in
      Gives-bind (owner_in-Gives (length b.price_level_ids) n (omega arith)) λ i e.
        Gives-bind (there b.price_level_ids i (omega (arith, e)) k.level_ids) λ pl d.
          sample_levels-Trading left z (record m { base = add_edge (edge_to pl 2) m.base })
            (record b {
              rng = rng;
              graph = record b.graph { total_edges = suc b.graph.total_edges };
            })
            (record {
              fresh = IsFresh-add_edge w b.next_id (edge_to pl 2) m.base d h.fresh;
              shape =
                  loosen {l = length m.base.edges + 0} {t = b.graph.total_edges} 1 _ _
                    (omega (arith, more (edge_to pl 2 ∷ []))) (omega arith) h.shape;
              known = record {
                venues = k.venues;
                venue_ids = k.venue_ids;
                level_ids = k.level_ids;
                venue_total = k.venue_total;
                level_total = k.level_total;
                venue_count = k.venue_count;
                level_count = k.level_count;
                order_count = k.order_count;
                maker_count = k.maker_count;
                next = k.next;
                kinds = k.kinds;
                size = k.size;
              };
            })
            (omega arith)

  begin_maker :
      (z : Sizes) (mm owner : ℕ) (b : Build S Rng)
      → Partial w nothing 0 z b
      → owner ≡ b.next_id % w
      → Trading
          (record z { makers = suc z.makers })
          (new_maker b.next_id owner (maker_state mm))
          (record b { next_id = suc b.next_id })
  begin_maker z mm owner b h e =
      let k = h.known in
      record {
        fresh = (e, refl, refl, omega arith, tt);
        shape = take_id h.shape;
        known = record {
          venues = k.venues;
          venue_ids = k.venue_ids;
          level_ids = All-map (λ i m. omega arith) b.price_level_ids k.level_ids;
          venue_total = k.venue_total;
          level_total = k.level_total;
          venue_count = k.venue_count;
          level_count = k.level_count;
          order_count = k.order_count;
          maker_count = k.maker_count;
          next = omega (arith, k.next);
          kinds = k.kinds;
          size = k.size;
        };
      }

  end_maker :
      (z : Sizes) (m : MarketMakerVertex) (b : Build S Rng)
      → Trading z m b
      → Partial w nothing 0
          (record z { made = suc z.made })
          (record b {
            graph = record (push_vertex (maker_vertex m) b.graph) {
              mm_count = suc b.graph.mm_count;
            };
          })
  end_maker z m b h =
      let k = h.known in
      record {
        shape = place (maker_vertex m) h.fresh h.shape;
        known = record {
          venues = λ i l. IsVenueAt-push b.graph.vertices (maker_vertex m ∷ []) i (k.venues i l);
          venue_ids = k.venue_ids;
          level_ids = k.level_ids;
          venue_total = k.venue_total;
          level_total = k.level_total;
          venue_count = k.venue_count;
          level_count = k.level_count;
          order_count = k.order_count;
          maker_count = ap suc k.maker_count;
          next = k.next;
          kinds =
              kinds-push b.graph.vertices (maker_vertex m) z (record z { made = suc z.made })
                k.kinds (omega arith) (omega arith) (omega arith) (omega arith);
          size = omega (arith, k.size, length-append b.graph.vertices (maker_vertex m ∷ []));
        };
      }

  -- One market maker more.
  pub add_maker-Partial :
      (z : Sizes) (mm : ℕ) (b : Build S Rng)
      → Partial w nothing 0 z b
      → Gives
          (Partial w nothing 0 (record z { makers = suc z.makers; made = suc z.made }))
          (add_maker R w mm b)
  unfolding add_maker
  add_maker-Partial z mm b h =
      let z' : Sizes = record z { makers = suc z.makers } in
      Gives-bind (owner_in-Gives w b.next_id positive) λ owner e.
        let m = new_maker b.next_id owner (maker_state mm) in
        Gives-bind
          (link_venues-Trading b.venue_ids z' m (record b { next_id = suc b.next_id })
            (begin_maker z mm owner b h e) h.known.venue_ids)
          λ r k.
            Gives-bind
              (sample_levels-Trading (min 20 (length b.price_level_ids)) z' r.0
                (record b { graph = r.1; next_id = suc b.next_id }) k (omega arith))
              λ r' k'. (_, refl, end_maker z' r'.0 r'.1 k')
