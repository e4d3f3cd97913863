-- ===== src/Worker/Absorb.antt =====
-- `WorkerNode::absorb_partition` and the partition map.
use pregel.Common.{
  ℕ, ◌+◌, ◌<◌, ◌≡◌, refl, ◌∙◌, sym, ap, List, [], ◌∷◌, ◌==◌, if◌then◌else◌, length, find,
  find-insert, Option, some, true, Bool-cases, inl, inr, arith, ==_iff,
}
use pregel.Types.{u64}
use pregel.Vertex.{Vertex, set_owner}
use pregel.Partition.{PartitionMap, owner_of, migrate, IsValid, owner_of-migrate, migrate-IsValid}
use pregel.Worker.{VertexClass, WorkerNode, absorb, absorb_partition}
use pregel.Worker.Inboxes.{elem}
use pregel.Worker.Collect.{IsLawful}

module _ {V : Type 0} (C : VertexClass V) where
  abbrev pub ids : List V → List ℕ
  ids [] = []
  ids (v ∷ vs) = (C.base v).id ∷ ids vs

  -- The vertex `k` of the worker is owned by it.
  abbrev pub IsOwned : ℕ → WorkerNode V → Type 0
  IsOwned k w = (u : V) × (find k w.vertices ≡ some u) × ((C.base u).owner ≡ w.id)

  -- The vertex `k` of worker `w` after it has absorbed these, where `u` was there before: the last of them with
  -- that id, as it was but for its owner.
  abbrev pub taken_over : ℕ → ℕ → List V → Option V → Option V
  taken_over w k [] u = u
  taken_over w k (v ∷ vs) u =
      taken_over w k vs
        (if (C.base v).id == k then some (C.with_base (record (C.base v) { owner = w }) v) else u)

  record Absorbed (vs : List V) (a b : WorkerNode V × PartitionMap) : Type 0 where
    same_id : b.0.id ≡ a.0.id
    same_count : b.1.worker_count ≡ a.1.worker_count
    owners : (k : ℕ) → owner_of b.1 k ≡ (if elem k (ids vs) then a.0.id else owner_of a.1 k)
    held : (k : ℕ) → find k b.0.vertices ≡ taken_over a.0.id k vs (find k a.0.vertices)
    kept : (k : ℕ) → IsOwned k a.0 → IsOwned k b.0
    got : (k : ℕ) → elem k (ids vs) ≡ true → IsOwned k b.0
    valid : a.0.id < a.1.worker_count → IsValid a.1 → IsValid b.1
    counted : u64 b.0.stats.migrations_performed ≡ u64 (a.0.stats.migrations_performed + length vs)

  absorb-kept :
      (v : V) (a : WorkerNode V × PartitionMap) (k : ℕ)
      → IsLawful C
      → IsOwned k a.0
      → IsOwned k (absorb C v a).0
  unfolding absorb set_owner
  absorb-kept v a k l (u, f, o) =
      let vid = (C.base v).id in
      let new = C.with_base (set_owner a.0.id (C.base v)) v in
      elim (Bool-cases (vid == k)) [
        | inl hit ↦ (
          new,
          find-insert vid k new a.0.vertices ∙ ground (arith, hit),
          ap (λ (b : Vertex). b.owner) (l.base-with_base (set_owner a.0.id (C.base v)) v),
        )
        | inr miss ↦ (u, find-insert vid k new a.0.vertices ∙ ground (arith, miss, f), o)
      ]

  absorb-got :
      (v : V) (a : WorkerNode V × PartitionMap) (k : ℕ)
      → IsLawful C
      → (C.base v).id ≡ k
      → IsOwned k (absorb C v a).0
  unfolding absorb set_owner
  absorb-got v a k l e =
      let vid = (C.base v).id in
      let new = C.with_base (set_owner a.0.id (C.base v)) v in
      (
        new,
        find-insert vid k new a.0.vertices ∙ ground (arith, ==_iff vid k),
        ap (λ (b : Vertex). b.owner) (l.base-with_base (set_owner a.0.id (C.base v)) v),
      )

  absorb_partition-Absorbed :
      (vs : List V) (a : WorkerNode V × PartitionMap)
      → IsLawful C
      → Absorbed vs a (absorb_partition C vs a)
  unfolding absorb_partition absorb migrate set_owner
  absorb_partition-Absorbed [] a l = record {
    same_id = refl;
    same_count = refl;
    owners = λ k. refl;
    held = λ k. refl;
    kept = λ k o. o;
    got = λ k e. absurd cc;
    valid = λ h v. v;
    counted = omega arith;
  }
  absorb_partition-Absorbed (v ∷ vs) a l =
      let vid = (C.base v).id in
      let r = absorb_partition-Absorbed vs (absorb C v a) l in
      record {
        same_id = r.same_id;
        same_count = r.same_count;
        owners = λ k. r.owners k ∙ ground (arith, owner_of-migrate a.1 vid a.0.id k);
        held = λ k. r.held k ∙ ap (taken_over a.0.id k vs) (find-insert vid k _ a.0.vertices);
        kept = λ k o. r.kept k (absorb-kept v a k l o);
        got = λ k e. elim (Bool-cases (vid == k)) [
          | inl hit ↦ r.kept k (absorb-got v a k l ((==_iff vid k).0 hit))
          | inr miss ↦ r.got k (ground (arith, miss, e))
        ];
        valid = λ h w. r.valid h (migrate-IsValid a.1 vid a.0.id h w);
        counted = omega (arith, r.counted);
      }

  -- A worker that absorbs vertices holds, at every id of theirs, the last of them with that id, as it was but
  -- for its owner, and at any other id what it held before. It is the owner of them, by the vertex itself and by
  -- the partition map; the map names the old owners of all other vertices, and is still valid if the
  -- worker is one of its workers; the migrations are counted (modulo 2 ^ 64).
  pub absorb_partition-IsOwned :
      (vs : List V) (w : WorkerNode V) (p : PartitionMap)
      → IsLawful C
      → w.id < p.worker_count
      → IsValid p
      → let b = absorb_partition C vs (w, p) in
        ((k : ℕ) → find k b.0.vertices ≡ taken_over w.id k vs (find k w.vertices))
        × ((k : ℕ) → elem k (ids vs) ≡ true → IsOwned k b.0)
        × ((k : ℕ) → owner_of b.1 k ≡ (if elem k (ids vs) then b.0.id else owner_of p k))
        × (b.0.id ≡ w.id)
        × IsValid b.1
        × (u64 b.0.stats.migrations_performed ≡ u64 (w.stats.migrations_performed + length vs))
  absorb_partition-IsOwned vs w p l h v =
      let r = absorb_partition-Absorbed vs (w, p) l in
      (
        r.held,
        r.got,
        λ k. r.owners k ∙ ap (λ i. if elem k (ids vs) then i else owner_of p k) (sym r.same_id),
        r.same_id,
        r.valid h v,
        r.counted,
      )
