-- ===== src/Prelude/Splits.antt =====
-- A list split in two at a position: reading, writing and removing the element that stands there.
use mathlib.Core.List.{Perm}
use mathlib.Core.List.Perm
use pvpool.Prelude.{
  ℕ, zero, suc, ◌-◌, ◌≤◌, ◌<◌, ◌≡◌, refl, sym, ap, ◌∙◌, subst, some, List, [], ◌∷◌, ◌++◌, arith,
  length, get_elem?, set, take,
}
use pvpool.Prelude.Members.{some-eq}
use pvpool.Prelude.Removal.{last_of}

module _ {A : Type 0} where
  pub get_elem?-split :
      (xs : List A) (x : A) (ys : List A) → get_elem? (xs ++ x ∷ ys) (length xs) ≡ some x
  get_elem?-split [] x ys = refl
  get_elem?-split (z ∷ xs) x ys = get_elem?-split xs x ys

  pub set-split :
      (xs : List A) (x y : A) (ys : List A) → set (xs ++ x ∷ ys) (length xs) y ≡ xs ++ y ∷ ys
  set-split [] x y ys = refl
  set-split (z ∷ xs) x y ys = ap (◌∷◌ z) (set-split xs x y ys)

  pub snoc_assoc : (xs : List A) (x : A) (ys : List A) → xs ++ x ∷ ys ≡ (xs ++ x ∷ []) ++ ys
  snoc_assoc [] x ys = refl
  snoc_assoc (z ∷ xs) x ys = ap (◌∷◌ z) (snoc_assoc xs x ys)

  pub length-snoc : (xs : List A) (x : A) → length (xs ++ x ∷ []) ≡ suc (length xs)
  length-snoc [] x = refl
  length-snoc (z ∷ xs) x = ap suc (length-snoc xs x)

  -- What is left after a position when the last element has been written there and the end cut off.
  abbrev pub Cut : List A → A → List A → ℕ → A → Type 0
  Cut xs x ys n last =
      (zs : List A) × Perm zs ys × (take n (set (xs ++ x ∷ ys) (length xs) last) ≡ xs ++ zs)

  cut_lem :
      (xs : List A) (x : A) (ys : List A) (n : ℕ) (last : A)
      → length (xs ++ x ∷ ys) ≡ suc n
      → get_elem? (xs ++ x ∷ ys) n ≡ some last
      → Cut xs x ys n last
  cut_lem [] x [] zero last l e = ([], Perm.refl [], refl)
  cut_lem [] x [] (suc n) last l e = absurd (omega arith)
  cut_lem [] x (y ∷ ys) zero last l e = absurd (omega arith)
  cut_lem [] x (y ∷ ys) (suc n) last l e =
      let (last', f, p) = last_of y ys in
      let same : length ys ≡ n = omega arith in
      let q : last' ≡ last = some-eq (sym f ∙ ap (get_elem? (y ∷ ys)) same ∙ e) in
      (
        last ∷ take n (y ∷ ys),
        Perm.symm (
            subst (λ m. Perm (y ∷ ys) (last ∷ take m (y ∷ ys))) same
              (subst (λ a. Perm (y ∷ ys) (a ∷ take (length ys) (y ∷ ys))) q p)),
        refl,
      )
  cut_lem (z ∷ []) x ys zero last l e = absurd (omega arith)
  cut_lem (z ∷ w ∷ xs) x ys zero last l e = absurd (omega arith)
  cut_lem (z ∷ xs) x ys (suc n) last l e =
      let (zs, p, q) = cut_lem xs x ys n last (omega arith) e in (zs, p, ap (◌∷◌ z) q)

  length-split : (xs : List A) (x : A) (ys : List A) → (n : ℕ) × (length (xs ++ x ∷ ys) ≡ suc n)
  length-split [] x ys = (length ys, refl)
  length-split (z ∷ xs) x ys = (length (xs ++ x ∷ ys), refl)

  -- The last element takes the place of the one at the position.
  pub take-set-split :
      (xs : List A) (x : A) (ys : List A) (last : A)
      → get_elem? (xs ++ x ∷ ys) (length (xs ++ x ∷ ys) - 1) ≡ some last
      → Cut xs x ys (length (xs ++ x ∷ ys) - 1) last
  take-set-split xs x ys last e =
      let (n, l) = length-split xs x ys in
      let pred : length (xs ++ x ∷ ys) - 1 ≡ n = omega (arith, l) in
      rw pred (cut_lem xs x ys n last l (rw pred at e))

  -- A position inside a list whose first part ends there is that of an element of the second part.
  pub split_inside :
      (xs ys : List A) → length xs < length (xs ++ ys) → (y : A) × (zs : List A) × (ys ≡ y ∷ zs)
  split_inside [] [] h = absurd (omega arith)
  split_inside [] (y ∷ ys) h = (y, ys, refl)
  split_inside (x ∷ xs) ys h = split_inside xs ys (omega arith)

  pub split_outside : (xs ys : List A) → length (xs ++ ys) ≤ length xs → ys ≡ []
  split_outside [] [] h = refl
  split_outside [] (y ∷ ys) h = absurd (omega arith)
  split_outside (x ∷ xs) ys h = split_outside xs ys (omega arith)
