-- ===== src/Prelude/Prefix.antt =====
-- A property of the elements before a position, for loops over a list by index.
use pvpool.Prelude.{
  ℕ, zero, suc, ◌≤◌, ◌≡◌, subst, some, List, [], ◌∷◌, arith, length, get_elem?, set, take, All,
}

module _ {A : Type 0} (P : A → Type 0) where
  abbrev pub Before : ℕ → List A → Type 0
  Before zero xs = Unit {0}
  Before (suc i) [] = Unit {0}
  Before (suc i) (x ∷ xs) = P x × Before i xs

  -- A write at or past the position keeps it.
  pub Before-set : (i : ℕ) (xs : List A) (v : A) → Before i xs → Before i (set xs i v)
  Before-set zero xs v h = tt
  Before-set (suc i) [] v h = tt
  Before-set (suc i) (x ∷ xs) v h = (h.0, Before-set i xs v h.1)

  pub Before-take : (i n : ℕ) (xs : List A) → Before i xs → Before i (take n xs)
  Before-take zero n xs h = tt
  Before-take (suc i) zero xs h = tt
  Before-take (suc i) (suc n) [] h = tt
  Before-take (suc i) (suc n) (x ∷ xs) h = (h.0, Before-take i n xs h.1)

  pub Before-suc :
      (i : ℕ) (xs : List A) (v : A)
      → get_elem? xs i ≡ some v
      → P v
      → Before i xs
      → Before (suc i) xs
  Before-suc zero [] v e p h = tt
  Before-suc zero (x ∷ xs) v e p h = (subst P (cc) p, tt)
  Before-suc (suc i) [] v e p h = tt
  Before-suc (suc i) (x ∷ xs) v e p h = (h.0, Before-suc i xs v e p h.1)

  pub All-Before : (i : ℕ) (xs : List A) → length xs ≤ i → Before i xs → All P xs
  All-Before i [] le h = tt
  All-Before zero (x ∷ xs) le h = absurd (omega arith)
  All-Before (suc i) (x ∷ xs) le h = (h.0, All-Before i xs (omega arith) h.1)
