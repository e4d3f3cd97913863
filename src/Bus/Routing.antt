-- ===== src/Bus/Routing.antt =====
-- `MessageBus::enqueue_batch`: each message goes to the outbox of its target's owner.
use pregel.Common.{
  ℕ, ◌<◌, ◌≡◌, ◌==◌, refl, List, [], ◌∷◌, ◌++◌, if◌then◌else◌, length, get_or, set, some, arith,
  append_assoc, append-nil, length-set, get_or-set, ◌∙◌, sym, ap, lt→ltb,
}
use pregel.Types.{Message}
use pregel.Partition.{PartitionMap, owner_of, IsValid, owner_of-lt}
use pregel.Bus.{MessageBus, enqueue, enqueue_batch}

-- The messages for worker `w`, in order.
abbrev pub routed : PartitionMap → ℕ → List Message → List Message
routed p w [] = []
routed p w (m ∷ ms) = if owner_of p m.dst == w then m ∷ routed p w ms else routed p w ms

-- The bus has one outbox for each worker that the map knows.
abbrev pub Fits : PartitionMap → MessageBus → Type 0
Fits p b = length b.outboxes ≡ p.worker_count

-- A bus with other outboxes only.
abbrev pub SameButOutboxes : MessageBus → MessageBus → Type 0
SameButOutboxes b b' = b' ≡ record b { outboxes = b'.outboxes }

pub record Routed (p : PartitionMap) (ms : List Message) (b b' : MessageBus) : Type 0 where
  pub fits : Fits p b'
  pub rest : SameButOutboxes b b'
  pub boxes :
      (w : ℕ)
      → w < p.worker_count
      → get_or b'.outboxes w [] ≡ get_or b.outboxes w [] ++ routed p w ms

enqueue-Routed :
    (p : PartitionMap) (m : Message) (b : MessageBus)
    → IsValid p
    → Fits p b
    → (b' : MessageBus) × (enqueue p m b ≡ some b') × Routed p (m ∷ []) b b'
unfolding enqueue
enqueue-Routed p m b v f = (
  record b { outboxes = set b.outboxes w (get_or b.outboxes w [] ++ m ∷ []) },
  rw (enqueue, lt→ltb w (length b.outboxes) inside),
  record {
    fits = omega (arith, length-set b.outboxes w (get_or b.outboxes w [] ++ m ∷ []));
    rest = refl;
    boxes = λ u h. push_boxes u;
  },
)
  where
    w : ℕ
    w = owner_of p m.dst

    inside : w < length b.outboxes
    inside = omega (arith, owner_of-lt p m.dst v)

    push_boxes :
        (u : ℕ)
        → get_or (set b.outboxes w (get_or b.outboxes w [] ++ m ∷ [])) u []
          ≡ get_or b.outboxes u [] ++ routed p u (m ∷ [])
    push_boxes u =
        get_or-set b.outboxes w u (get_or b.outboxes w [] ++ m ∷ []) [] inside
        ∙ ground (arith, append-nil (get_or b.outboxes u []))

routed-cons :
    (p : PartitionMap) (w : ℕ) (m : Message) (ms : List Message)
    → routed p w (m ∷ []) ++ routed p w ms ≡ routed p w (m ∷ ms)
routed-cons p w m ms = ground arith

Routed-trans :
    (p : PartitionMap) (m : Message) (ms : List Message) (a b c : MessageBus)
    → Routed p (m ∷ []) a b
    → Routed p ms b c
    → Routed p (m ∷ ms) a c
Routed-trans p m ms a b c r s = record {
  fits = s.fits;
  rest = s.rest ∙ ap {A = MessageBus} (λ d. record d { outboxes = c.outboxes }) r.rest;
  boxes = λ w h.
      s.boxes w h
      ∙ ap (λ l. l ++ routed p w ms) (r.boxes w h)
      ∙ append_assoc (get_or a.outboxes w []) (routed p w (m ∷ [])) (routed p w ms)
      ∙ ap (◌++◌ (get_or a.outboxes w [])) (routed-cons p w m ms);
}

-- With a valid partition map and one outbox for each worker, a batch is enqueued without an access
-- out of range: every outbox gets, at its end and in their order, exactly the messages whose target
-- its worker owns, and nothing else of the bus changes.
pub enqueue_batch-Routed :
    (p : PartitionMap) (ms : List Message) (b : MessageBus)
    → IsValid p
    → Fits p b
    → (b' : MessageBus) × (enqueue_batch p ms b ≡ some b') × Routed p ms b b'
unfolding enqueue_batch
enqueue_batch-Routed p [] b v f = (
  b,
  refl,
  record { fits = f; rest = refl; boxes = λ w h. sym (append-nil (get_or b.outboxes w [])) },
)
enqueue_batch-Routed p (m ∷ ms) b v f =
    let (b', e, r) = enqueue-Routed p m b v f in
    let (c, e', s) = enqueue_batch-Routed p ms b' v r.fits in
    (c, rw (e, enqueue_batch) e', Routed-trans p m ms b b' c r s)
