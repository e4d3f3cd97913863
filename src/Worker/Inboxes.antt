-- ===== src/Worker/Inboxes.antt =====
-- `WorkerNode::dispatch_messages`: which messages stand in which inbox.
use pregel.Common.{
  ℕ, ◌≡◌, refl, ◌∙◌, sym, ap, List, [], ◌∷◌, ◌++◌, ◌==◌, if◌then◌else◌, not, ◌||◌, append_assoc,
  append-nil, Map, insert, find-insert, inl, inr, arith, Bool, true, false, ==_iff, Bool-cases,
}
use pregel.Types.{Message}
use pregel.Worker.{inbox_at, has_inbox, deliver}

abbrev pub elem : ℕ → List ℕ → Bool
elem k [] = false
elem k (x ∷ xs) = if x == k then true else elem k xs

abbrev pub NoDup : List ℕ → Type 0
NoDup [] = Unit
NoDup (x ∷ xs) = (elem x xs ≡ false) × NoDup xs

-- A reordering of the tasks.
pub record IsOrder (order : List ℕ → List ℕ) : Type 0 where
  pub no_dup : (xs : List ℕ) → NoDup xs → NoDup (order xs)
  pub same : (xs : List ℕ) (k : ℕ) → elem k (order xs) ≡ elem k xs

-- The messages for `k`.
abbrev pub addressed : ℕ → List Message → List Message
addressed k [] = []
addressed k (m ∷ ms) = if m.dst == k then m ∷ addressed k ms else addressed k ms

abbrev pub is_none {ℓ} : {A : Type ℓ} → List A → Bool
is_none [] = true
is_none (x ∷ xs) = false

pub inbox_at-insert :
    (k d : ℕ) (l : List Message) (m : Map (List Message))
    → inbox_at k (insert d l m) ≡ (if d == k then l else inbox_at k m)
inbox_at-insert k d l m = ground (arith, find-insert d k l m)

pub has_inbox-insert :
    (k d : ℕ) (l : List Message) (m : Map (List Message))
    → has_inbox k (insert d l m) ≡ (if d == k then true else has_inbox k m)
has_inbox-insert k d l m = ground (arith, find-insert d k l m)

pub deliver-inbox_at :
    (k : ℕ) (ms : List Message) (m : Map (List Message))
    → inbox_at k (deliver ms m) ≡ inbox_at k m ++ addressed k ms
unfolding deliver
deliver-inbox_at k [] m = sym (append-nil (inbox_at k m))
deliver-inbox_at k (x ∷ xs) m =
    deliver-inbox_at k xs (insert x.dst (inbox_at x.dst m ++ x ∷ []) m)
    ∙ elim (Bool-cases (x.dst == k)) [
      | inl hit ↦
          rw (inbox_at-insert k x.dst (inbox_at x.dst m ++ x ∷ []) m, hit)
            (append_assoc (inbox_at x.dst m) (x ∷ []) (addressed k xs)
              ∙ ap (λ j. inbox_at j m ++ x ∷ addressed k xs) ((==_iff x.dst k).0 hit))
      | inr miss ↦ rw (inbox_at-insert k x.dst (inbox_at x.dst m ++ x ∷ []) m, miss) refl
    ]

pub deliver-has_inbox :
    (k : ℕ) (ms : List Message) (m : Map (List Message))
    → has_inbox k (deliver ms m) ≡ (has_inbox k m || not (is_none (addressed k ms)))
unfolding deliver
deliver-has_inbox k [] m = ground arith
deliver-has_inbox k (x ∷ xs) m = ground (
  arith,
  deliver-has_inbox k xs (insert x.dst (inbox_at x.dst m ++ x ∷ []) m),
  has_inbox-insert k x.dst (inbox_at x.dst m ++ x ∷ []) m,
)
