-- ===== src/Common/Sums.antt =====
-- Weights of the entries of a list, summed.
use Prim.Native.Nat.{ℕ, zero, suc, ◌+◌, ◌≤◌, ◌<◌}
use mathlib.Core.Path.{◌≡◌, refl}
use mathlib.Core.List.{List, [], ◌∷◌, ◌++◌}
use mathlib.Core.Option.{some}
use native.Mathlib.Omega.{arith}
use pregel.Common.Lists.{length, get_elem?, get_or, set, replicate}

module _ {ℓ} {A : Type ℓ} (w : A → ℕ) where
  unfoldable pub weigh : List A → ℕ
  weigh [] = 0
  weigh (x ∷ xs) = w x + weigh xs

  -- A write moves the sum by the difference of the two weights.
  pub weigh-set :
      (xs : List A) (i : ℕ) (v d : A)
      → i < length xs
      → weigh (set xs i v) + w (get_or xs i d) ≡ weigh xs + w v
  unfolding weigh
  weigh-set [] i v d h = elim h [ ]
  weigh-set (x ∷ xs) zero v d h = omega arith
  weigh-set (x ∷ xs) (suc i) v d h = omega (arith, weigh-set xs i v d (omega arith))

  pub weigh-write :
      (xs : List A) (i : ℕ) (v u : A)
      → get_elem? xs i ≡ some v
      → weigh (set xs i u) + w v ≡ weigh xs + w u
  unfolding weigh
  weigh-write [] i v u e = absurd cc
  weigh-write (x ∷ xs) zero v u e = grind (arith, e)
  weigh-write (x ∷ xs) (suc i) v u e = omega (arith, weigh-write xs i v u e)

  pub weigh-ge : (xs : List A) (i : ℕ) (d : A) → i < length xs → w (get_or xs i d) ≤ weigh xs
  unfolding weigh
  weigh-ge [] i d h = elim h [ ]
  weigh-ge (x ∷ xs) zero d h = omega arith
  weigh-ge (x ∷ xs) (suc i) d h = omega (arith, weigh-ge xs i d (omega arith))

  pub weigh-le : ((a : A) → w a ≤ 1) → (xs : List A) → weigh xs ≤ length xs
  unfolding weigh
  weigh-le small [] = omega arith
  weigh-le small (x ∷ xs) = omega (arith, small x, weigh-le small xs)

  -- A sum of weights up to one that reaches the number of threads has weight one everywhere.
  pub weigh_full :
      ((a : A) → w a ≤ 1)
      → (xs : List A) (i : ℕ) (d : A) → weigh xs ≡ length xs
      → i < length xs
      → w (get_or xs i d) ≡ 1
  unfolding weigh
  weigh_full small [] i d e h = elim h [ ]
  weigh_full small (x ∷ xs) zero d e h = omega (arith, small x, weigh-le small xs)
  weigh_full small (x ∷ xs) (suc i) d e h =
      weigh_full small xs i d (omega (arith, small x, weigh-le small xs)) (omega arith)

  pub weigh_const :
      (k : ℕ) (xs : List A) (d : A)
      → ((i : ℕ) → i < length xs → w (get_or xs i d) ≡ k)
      → (k ≡ 0 → weigh xs ≡ 0) × (k ≡ 1 → weigh xs ≡ length xs)
  unfolding weigh
  weigh_const k [] d h = (λ _. refl, λ _. refl)
  weigh_const k (x ∷ xs) d h =
      let rest = weigh_const k xs d (λ i l. h (suc i) (omega arith)) in
      let first = h 0 (omega arith) in
      (λ z. ground (arith, rest.0 z), λ o. ground (arith, rest.1 o))

  pub weigh-append : (xs ys : List A) → weigh (xs ++ ys) ≡ weigh xs + weigh ys
  unfolding weigh
  weigh-append [] ys = omega arith
  weigh-append (x ∷ xs) ys = omega (arith, weigh-append xs ys)

  pub weigh-replicate : (n : ℕ) (a : A) → w a ≡ 0 → weigh (replicate n a) ≡ 0
  unfolding weigh
  weigh-replicate zero a h = refl
  weigh-replicate (suc n) a h = omega (arith, h, weigh-replicate n a h)
