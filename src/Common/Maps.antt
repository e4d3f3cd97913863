-- ===== src/Common/Maps.antt =====
-- `std::unordered_map` as an association list: a new key goes to the end, an old one keeps its place.
use Prim.Native.Nat.{ℕ}
use mathlib.Core.Path.{◌≡◌, refl, subst₂}
use mathlib.Core.Logic.{inl, inr}
use mathlib.Core.Bool.{Bool, true, false}
use mathlib.Core.List.{List, [], ◌∷◌}
use mathlib.Core.Option.{Option, none, some}
use native.Mathlib.Omega.{arith}
use pregel.Common.Tests.{◌==◌, if◌then◌else◌, Bool-cases, ==_iff}

abbrev pub Map {ℓ} : Type ℓ → Type ℓ
Map V = List (ℕ × V)

module _ {ℓ} {V : Type ℓ} where
  unfoldable pub find : ℕ → Map V → Option V
  find k [] = none
  find k ((j, v) ∷ m) = if j == k then some v else find k m

  -- `m[k] = v`
  unfoldable pub insert : ℕ → V → Map V → Map V
  insert k v [] = (k, v) ∷ []
  insert k v ((j, w) ∷ m) = if j == k then (k, v) ∷ m else (j, w) ∷ insert k v m

  unfoldable pub erase : ℕ → Map V → Map V
  erase k [] = []
  erase k ((j, w) ∷ m) = let rest = erase k m in if j == k then rest else (j, w) ∷ rest

  pub find-insert :
      (k j : ℕ) (v : V) (m : Map V) → find j (insert k v m) ≡ (if k == j then some v else find j m)
  unfolding find insert
  find-insert k j v [] = refl
  find-insert k j v ((i, w) ∷ m) = ground (arith, find-insert k j v m)

  pub find-erase : (k j : ℕ) (m : Map V) → find j (erase k m) ≡ (if k == j then none else find j m)
  unfolding find erase
  find-erase k j [] = ground arith
  find-erase k j ((i, w) ∷ m) = ground (arith, find-erase k j m)

  abbrev pub keys : Map V → List ℕ
  keys [] = []
  keys ((k, v) ∷ m) = k ∷ keys m

  -- Writing a key that is present leaves the keys as they are.
  pub keys-insert : (k : ℕ) (v w : V) (m : Map V) → find k m ≡ some w → keys (insert k v m) ≡ keys m
  unfolding find insert
  keys-insert k v w [] h = ground arith
  keys-insert k v w ((i, x) ∷ m) h = ground (arith, keys-insert k v w m)

  abbrev pub AllV {κ} : (ℕ → V → Type κ) → Map V → Type κ
  AllV P [] = Unit
  AllV P ((k, v) ∷ m) = P k v × AllV P m

  pub AllV-insert {κ} :
      (P : ℕ → V → Type κ) (k : ℕ) (v : V) (m : Map V) → P k v → AllV P m → AllV P (insert k v m)
  unfolding insert
  AllV-insert P k v [] h a = (h, tt)
  AllV-insert P k v ((j, w) ∷ m) h a = go (j == k) (AllV-insert P k v m h a.1)
    where
      go :
          (b : Bool)
          → AllV P (insert k v m)
          → AllV P (if b then (k, v) ∷ m else (j, w) ∷ insert k v m)
      go true r = (h, a.1)
      go false r = (a.0, r)

  pub AllV-erase {κ} : (P : ℕ → V → Type κ) (k : ℕ) (m : Map V) → AllV P m → AllV P (erase k m)
  unfolding erase
  AllV-erase P k [] a = tt
  AllV-erase P k ((j, w) ∷ m) a = go (j == k) (AllV-erase P k m a.1)
    where
      go : (b : Bool) → AllV P (erase k m) → AllV P (if b then erase k m else (j, w) ∷ erase k m)
      go true r = r
      go false r = (a.0, r)

  pub AllV-find {κ} :
      (P : ℕ → V → Type κ) (k : ℕ) (v : V) (m : Map V) → AllV P m → find k m ≡ some v → P k v
  unfolding find
  AllV-find P k v [] a h = ground arith
  AllV-find P k v ((j, w) ∷ m) a h = elim (Bool-cases (j == k)) [
    | inl hit ↦ subst₂ P ((==_iff j k).0 hit) (ground arith) a.0
    | inr miss ↦ AllV-find P k v m a.1 (rw miss at h)
  ]
