-- ===== src/OrderBook/Graph/Census.antt =====
-- `build_order_book_graph`: the whole graph.
use pregel.Common.{
  ℕ, suc, zero, ◌+◌, ◌*◌, ◌<◌, ◌≤◌, ◌≡◌, refl, ◌∙◌, sym, subst, arith, All, All-elem, length,
  get_elem?-lt, weigh, Gives, Gives-bind,
}
use pregel.Types.{Side, VertexType, u32}
use pregel.OrderBook.GraphVertex.{base_of}
use pregel.OrderBook.Graph.{Source, OrderBookGraphParams, GraphData, Build, start}
use pregel.OrderBook.Graph.Shape.{
  IsFresh, IsVenueAt, nothing, named, degree, below, of_kind, by_kind,
}
use pregel.OrderBook.Graph.Steps.{
  Sizes, Partial, tally, venues_only, add_venue-Partial, add_level-Partial,
}
use pregel.OrderBook.Graph.Makers.{add_maker-Partial}
use pregel.OrderBook.Graph.Loops.{
  add_venues, add_levels, add_book, add_books, add_makers, build_order_book_graph,
}

-- With `l` more levels and `o` more orders.
abbrev grown : ℕ → ℕ → Sizes → Sizes
grown l o z = record z { levels = z.levels + l; closed = z.closed + l; orders = z.orders + o }

sizes_eq :
    (y z : Sizes)
    → y.venues ≡ z.venues
    → y.levels ≡ z.levels
    → y.closed ≡ z.closed
    → y.orders ≡ z.orders
    → y.makers ≡ z.makers
    → y.made ≡ z.made
    → y ≡ z
sizes_eq y z p q r s t u =
    λ i. record { venues = p i; levels = q i; closed = r i; orders = s i; makers = t i; made = u i }

-- What the parameters ask for.
abbrev pub levels_of : OrderBookGraphParams → ℕ
levels_of p = p.venue_count * (2 * p.price_levels)

abbrev pub orders_of : OrderBookGraphParams → ℕ
orders_of p = p.venue_count * (2 * (p.price_levels * p.orders_per_level))

-- How many vertices of a kind the parameters ask for.
abbrev pub asked : OrderBookGraphParams → VertexType → ℕ
asked p VertexType.order = orders_of p
asked p VertexType.price_level = levels_of p
asked p VertexType.venue = p.venue_count
asked p VertexType.market_maker = p.market_maker_count

-- The graph that the parameters ask for.
pub record IsGraph {Rng : Type 0} (p : OrderBookGraphParams) (d : GraphData Rng) : Type 0 where
  pub ids : (x : ℕ) → weigh (named x) d.vertices ≡ below (length d.vertices) x
  pub fresh : All (λ v. IsFresh p.worker_count (length d.vertices) (base_of v)) d.vertices
  pub venues : (i : ℕ) → i < p.venue_count → IsVenueAt d.vertices i
  pub kinds : (t : VertexType) → weigh (of_kind t) d.vertices ≡ asked p t
  pub edges : d.total_edges ≡ weigh degree d.vertices
  pub size : length d.vertices ≡ p.venue_count + levels_of p + orders_of p + p.market_maker_count
  pub venue_count : d.venue_count ≡ p.venue_count
  pub level_count : d.price_level_count ≡ u32 (levels_of p)
  pub order_count : d.order_count ≡ orders_of p
  pub maker_count : d.mm_count ≡ p.market_maker_count

module _ {S Rng : Type 0} (R : Source S Rng) (w : ℕ) (positive : 0 < w) where
  resize :
      (y z : Sizes) (b : Build S Rng)
      → y.venues ≡ z.venues
      → y.levels ≡ z.levels
      → y.closed ≡ z.closed
      → y.orders ≡ z.orders
      → y.makers ≡ z.makers
      → y.made ≡ z.made
      → Partial w nothing 0 y b
      → Partial w nothing 0 z b
  resize y z b p q r s t u = subst (λ x. Partial w nothing 0 x b) (sizes_eq y z p q r s t u)

  add_venues-Partial :
      (left v n : ℕ) (b : Build S Rng)
      → Partial w nothing 0 (venues_only n) b
      → Gives (Partial w nothing 0 (venues_only (n + left))) (add_venues R w v left b)
  unfolding add_venues
  add_venues-Partial zero v n b h =
      (b, refl, subst (λ k. Partial w nothing 0 (venues_only k) b) (omega arith) h)
  add_venues-Partial (suc left) v n b h =
      Gives-bind (add_venue-Partial R w positive v n b h) λ b' h'.
        let (c, e, k) = add_venues-Partial left (suc v) (suc n) b' h' in
        (c, e, subst (λ m. Partial w nothing 0 (venues_only m) c) (omega arith) k)

  add_levels-Partial :
      (left lvl : ℕ) (z : Sizes) (orders v vid : ℕ) (side : Side) (b : Build S Rng)
      → Partial w nothing 0 z b
      → vid < z.venues
      → Gives
          (Partial w nothing 0 (grown left (left * orders) z))
          (add_levels R w orders v vid side lvl left b)
  unfolding add_levels
  add_levels-Partial zero lvl z orders v vid side b h l = (
    b,
    refl,
    resize z (grown 0 (0 * orders) z) b refl (omega arith) (omega arith) (omega arith) refl refl h,
  )
  add_levels-Partial (suc left) lvl z orders v vid side b h l =
      Gives-bind (add_level-Partial R w positive z orders v vid side lvl b h l) λ b' h'.
        let (c, e, k) =
          add_levels-Partial left (suc lvl)
            (record z { levels = suc z.levels; closed = suc z.closed; orders = z.orders + orders })
            orders v vid side b' h' l in
        (
          c,
          e,
          resize _ (grown (suc left) (suc left * orders) z) c refl (omega arith) (omega arith)
              (omega arith) refl refl k,
        )

  add_book-Partial :
      (levels orders v : ℕ) (z : Sizes) (b : Build S Rng)
      → Partial w nothing 0 z b
      → v < z.venues
      → Gives
          (Partial w nothing 0 (grown (2 * levels) (2 * (levels * orders)) z))
          (add_book R w levels orders v b)
  unfolding add_book
  add_book-Partial levels orders v z b h l =
      let (vid, e) = get_elem?-lt b.venue_ids v (omega (arith, h.known.venue_total)) in
      let d = All-elem (λ i. i < z.venues) b.venue_ids v vid e h.known.venue_ids in
      let y = grown levels (levels * orders) z in
      Gives-bind (vid, e, d)
        λ vid' d'. Gives-bind (add_levels-Partial levels 0 z orders v vid' Side.bid b h d') λ b' h'.
          let (c, e, k) = add_levels-Partial levels 0 y orders v vid' Side.ask b' h' d' in
          (
            c,
            e,
            resize (grown levels (levels * orders) y) (grown (2 * levels) (2 * (levels * orders)) z)
                c refl (omega arith) (omega arith) (omega arith) refl refl k,
          )

  add_books-Partial :
      (left levels orders v : ℕ) (z : Sizes) (b : Build S Rng)
      → Partial w nothing 0 z b
      → v + left ≤ z.venues
      → Gives
          (Partial w nothing 0 (grown (left * (2 * levels)) (left * (2 * (levels * orders))) z))
          (add_books R w levels orders v left b)
  unfolding add_books
  add_books-Partial zero levels orders v z b h l = (
    b,
    refl,
    resize z (grown (0 * (2 * levels)) (0 * (2 * (levels * orders))) z) b refl (omega arith)
        (omega arith) (omega arith) refl refl h,
  )
  add_books-Partial (suc left) levels orders v z b h l =
      let y = grown (2 * levels) (2 * (levels * orders)) z in
      Gives-bind (add_book-Partial levels orders v z b h (omega arith)) λ b' h'.
        let (c, e, k) = add_books-Partial left levels orders (suc v) y b' h' (omega arith) in
        (
          c,
          e,
          resize (grown (left * (2 * levels)) (left * (2 * (levels * orders))) y)
              (grown (suc left * (2 * levels)) (suc left * (2 * (levels * orders))) z) c refl
              (omega arith) (omega arith) (omega arith) refl refl k,
        )

  add_makers-Partial :
      (left mm : ℕ) (z : Sizes) (b : Build S Rng)
      → Partial w nothing 0 z b
      → Gives
          (Partial w nothing 0 (record z { makers = z.makers + left; made = z.made + left }))
          (add_makers R w mm left b)
  unfolding add_makers
  add_makers-Partial zero mm z b h = (
    b,
    refl,
    resize z (record z { makers = z.makers + 0; made = z.made + 0 }) b refl refl refl refl
        (omega arith) (omega arith) h,
  )
  add_makers-Partial (suc left) mm z b h =
      let y : Sizes = record z { makers = suc z.makers; made = suc z.made } in
      Gives-bind (add_maker-Partial R w positive z mm b h) λ b' h'.
        let (c, e, k) = add_makers-Partial left (suc mm) y b' h' in
        (
          c,
          e,
          resize (record y { makers = y.makers + left; made = y.made + left })
              (record z { makers = z.makers + suc left; made = z.made + suc left }) c refl refl refl
              refl (omega arith) (omega arith) k,
        )

no_kinds : (t : VertexType) → 0 ≡ tally t (venues_only 0)
no_kinds VertexType.order = refl
no_kinds VertexType.price_level = refl
no_kinds VertexType.venue = refl
no_kinds VertexType.market_maker = refl

asked-by_kind :
    (p : OrderBookGraphParams) (o l v m : ℕ)
    → o ≡ orders_of p
    → l ≡ levels_of p
    → v ≡ p.venue_count
    → m ≡ p.market_maker_count
    → (t : VertexType) → by_kind t o l v m ≡ asked p t
asked-by_kind p o l v m h i j k VertexType.order = h
asked-by_kind p o l v m h i j k VertexType.price_level = i
asked-by_kind p o l v m h i j k VertexType.venue = j
asked-by_kind p o l v m h i j k VertexType.market_maker = k

start-Partial :
    {S Rng : Type 0} (w : ℕ) (s : S)
    → Partial {S = S} {Rng = Rng} w nothing 0 (venues_only 0) (start s)
unfolding weigh
start-Partial w s = record {
  shape = record { ids = λ x. ground arith; edges = refl; fresh = tt };
  known = record {
    venues = λ i l. elim l [ ];
    venue_ids = tt;
    level_ids = tt;
    venue_total = refl;
    level_total = refl;
    venue_count = refl;
    level_count = refl;
    order_count = refl;
    maker_count = refl;
    next = refl;
    kinds = no_kinds;
    size = refl;
  };
}

-- With at least one worker a graph is always built, whatever the random numbers are: no access is
-- out of range, no division is by zero. Its ids are exactly those below the number of its vertices,
-- each at one vertex; as many of the vertices are orders, price levels, venues and market makers as
-- are asked for, each of its own class, and every venue stands at its id; every edge leads to an id
-- of the graph, and total_edges counts all of them; every vertex is active, sends nothing yet, and
-- is owned by its id modulo the workers.
pub build_order_book_graph-IsGraph :
    {S Rng : Type 0} (R : Source S Rng) (p : OrderBookGraphParams) (s : S)
    → 0 < p.worker_count
    → Gives (IsGraph p) (build_order_book_graph R p s)
unfolding build_order_book_graph
build_order_book_graph-IsGraph R p s h =
    let w = p.worker_count in
    Gives-bind (add_venues-Partial R w h p.venue_count 0 0 (start s) (start-Partial w s)) λ b k.
      Gives-bind
        (add_books-Partial R w h p.venue_count p.price_levels p.orders_per_level 0
          (venues_only (0 + p.venue_count)) b k (omega arith))
        λ b' k'.
          Gives-bind
            (add_makers-Partial R w h p.market_maker_count 0
              (grown (levels_of p) (orders_of p) (venues_only (0 + p.venue_count))) b' k')
            λ c r.
              let k = r.known in
              let all : length c.graph.vertices ≡ c.next_id = omega (arith, k.next, k.size) in
              (
                c.graph,
                refl,
                record {
                  ids = λ x. ground (arith, r.shape.ids x, all);
                  fresh =
                      subst (λ n. All (λ v. IsFresh w n (base_of v)) c.graph.vertices) (sym all)
                        r.shape.fresh;
                  venues = λ i l. k.venues i (omega arith);
                  kinds = λ t.
                      k.kinds t
                      ∙ asked-by_kind p _ _ _ _ (omega arith) (omega arith) (omega arith)
                          (omega arith) t;
                  edges = omega (arith, r.shape.edges);
                  size = omega (arith, k.size);
                  venue_count = omega (arith, k.venue_count);
                  level_count = omega (arith, k.level_count);
                  order_count = omega (arith, k.order_count);
                  maker_count = omega (arith, k.maker_count);
                },
              )
