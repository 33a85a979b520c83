-- ===== src/Prelude/Removal.antt =====
-- Removing the element at a position by writing the last element over it and cutting the end off.
use mathlib.Core.List.{Perm}
use mathlib.Core.List.Perm
use pvpool.Prelude.{
  ℕ, zero, suc, ◌≤◌, ◌<◌, ◌≡◌, refl, some, List, [], ◌∷◌, arith, length, get_elem?, set, take,
  length-set,
}

module _ {A : Type 0} where
  abbrev pub swap_remove : A → List A → ℕ → A → List A
  swap_remove x xs i last = take (length xs) (set (x ∷ xs) i last)

  pub length-take-le : (n : ℕ) (xs : List A) → n ≤ length xs → length (take n xs) ≡ n
  length-take-le zero xs h = refl
  length-take-le (suc n) [] h = absurd (omega arith)
  length-take-le (suc n) (x ∷ xs) h = omega (arith, length-take-le n xs)

  pub length-swap_remove :
      (x : A) (xs : List A) (i : ℕ) (last : A) → length (swap_remove x xs i last) ≡ length xs
  length-swap_remove x xs i last =
      length-take-le (length xs) (set (x ∷ xs) i last) (omega (arith, length-set (x ∷ xs) i last))

  -- The last element, split off.
  pub last_of :
      (x : A) (xs : List A)
      → (last : A) × (get_elem? (x ∷ xs) (length xs) ≡ some last)
        × Perm (x ∷ xs) (last ∷ take (length xs) (x ∷ xs))
  last_of x [] = (x, refl, Perm.refl (x ∷ []))
  last_of x (y ∷ xs) =
      let (last, e, p) = last_of y xs in
      (last, e, Perm.trans (Perm.cons x p) (Perm.swap last x (take (length xs) (y ∷ xs))))

  abbrev pub Removes : A → List A → ℕ → Type 0
  Removes x xs i =
      (r : A) × (last : A) × (get_elem? (x ∷ xs) i ≡ some r)
      × (get_elem? (x ∷ xs) (length xs) ≡ some last)
      × Perm (x ∷ xs) (r ∷ swap_remove x xs i last)

  Removes-head : (x : A) (xs : List A) → Removes x xs 0
  Removes-head x [] = (x, x, refl, refl, Perm.refl (x ∷ []))
  Removes-head x (y ∷ xs) = let (last, e, p) = last_of y xs in (x, last, refl, e, Perm.cons x p)

  -- In range, the swap removes exactly the element at the position.
  pub Removes-lem : (x : A) (xs : List A) (i : ℕ) → i < length (x ∷ xs) → Removes x xs i
  Removes-lem x xs zero h = Removes-head x xs
  Removes-lem x [] (suc i) h = absurd (omega arith)
  Removes-lem x (y ∷ xs) (suc i) h =
      let (r, last, e, f, p) = Removes-lem y xs i (omega arith) in
      (r, last, e, f, Perm.trans (Perm.cons x p) (Perm.swap r x (swap_remove y xs i last)))
