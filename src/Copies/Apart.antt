-- ===== src/Copies/Apart.antt =====
-- Writes to memory after a deep copy (zz_generated.deepcopy.go).
use pvpool.Prelude.{
  ℕ, zero, suc, ◌≤◌, ◌<◌, ◌≡◌, refl, ◌∙◌, arith, some, List, [], ◌∷◌, get_elem?, set, length,
}
use pvpool.Copies.Memory.{Place, Parts, Cell, Heap, Copy, Library}
use pvpool.Copies.DeepCopy.{pool_kind, checkout_kind, deep_copy_pool, deep_copy_checkout}
use pvpool.Copies.Rules.{Viewing, Copies}
use pvpool.Copies.Shapes.{AtPlace, pointer-Copies}
use pvpool.Copies.Values.{Views, PoolObject, CheckoutObject, PoolAt, CheckoutAt}
use pvpool.Copies.Laws.{LibraryLaws, pool-Copies, checkout-Copies}

get_elem?-set :
    {A : Type 0} (l : List A) (i j : ℕ) (x : A)
    → ¬ (i ≡ j)
    → get_elem? (set l i x) j ≡ get_elem? l j
get_elem?-set [] i j x ne = refl
get_elem?-set (y ∷ l) zero zero x ne = absurd (ne refl)
get_elem?-set (y ∷ l) zero (suc j) x ne = refl
get_elem?-set (y ∷ l) (suc i) zero x ne = refl
get_elem?-set (y ∷ l) (suc i) (suc j) x ne = get_elem?-set l i j x λ e. ne (omega (arith, e))

get_elem?-lt : {A : Type 0} (l : List A) (i : ℕ) {x : A} → get_elem? l i ≡ some x → i < length l
get_elem?-lt [] i e = absurd (cc)
get_elem?-lt (y ∷ l) zero e = omega arith
get_elem?-lt (y ∷ l) (suc i) e = omega (arith, get_elem?-lt l i e)

module _ (p : Parts) where
  module _ {A V : Type 0} {f : Copy p A} {P : Viewing p A V} (c : Copies p f P) where
    write_old :
        (a : A) (v : V) (h : Heap p)
        → P h a v
        → (i : ℕ) (x : Cell p) → i < length h
        → P (set (f a h).1 i x) (f a h).0 v
    write_old a v h view i x lt =
        c.copied a v h (set (f a h).1 i x) view λ j y le e.
          (get_elem?-set (f a h).1 i j x λ same. absurd (omega (arith, lt, le, same))) ∙ e

    write_new :
        (a : A) (v : V) (h : Heap p)
        → P h a v
        → (i : ℕ) (x : Cell p) → length h ≤ i
        → P (set (f a h).1 i x) a v
    write_new a v h view i x le =
        c.kept a v h (set (f a h).1 i x)
          (λ j y low e.
            (get_elem?-set (f a h).1 i j x
              λ same. absurd (omega (arith, get_elem?-lt h j e, le, same)))
            ∙ (c.extends a h).includes j y low e)
          view

  module _ (vs : Views p) (l : Library p) (laws : LibraryLaws p vs l) where
    pool_pointer-Copies : Copies p (deep_copy_pool p l) (AtPlace p (pool_kind p) (PoolAt p vs))
    unfolding deep_copy_pool
    pool_pointer-Copies = pointer-Copies p (pool_kind p) (pool-Copies p vs l laws) λ _. refl

    checkout_pointer-Copies :
        Copies p (deep_copy_checkout p l) (AtPlace p (checkout_kind p) (CheckoutAt p vs))
    unfolding deep_copy_checkout
    checkout_pointer-Copies =
        pointer-Copies p (checkout_kind p) (checkout-Copies p vs l laws) λ _. refl

    -- A deep copy of a pool has the value of the pool, and each of the two keeps it when a cell of
    -- the other's is written: `i` is a place that was in use before the copy, `j` one that was not.
    -- This is so where the third-party structs are copied in this way.
    pub write-deep_copy_pool :
        (place : Place) (v : PoolObject p vs) (h : Heap p)
        → AtPlace p (pool_kind p) (PoolAt p vs) h place (some v)
        → (i j : ℕ) (x y : Cell p) → i < length h
        → length h ≤ j
        → let (copy, h') = deep_copy_pool p l place h in
          AtPlace p (pool_kind p) (PoolAt p vs) (set h' i x) copy (some v)
          × AtPlace p (pool_kind p) (PoolAt p vs) (set h' j y) place (some v)
    write-deep_copy_pool place v h view i j x y old new = (
      write_old pool_pointer-Copies place (some v) h view i x old,
      write_new pool_pointer-Copies place (some v) h view j y new,
    )

    -- A deep copy of a checkout has the value of the checkout, and each of the two keeps it when a
    -- cell of the other's is written: `i` is a place that was in use before the copy, `j` one that
    -- was not. This is so where the third-party structs are copied in this way.
    pub write-deep_copy_checkout :
        (place : Place) (v : CheckoutObject p vs) (h : Heap p)
        → AtPlace p (checkout_kind p) (CheckoutAt p vs) h place (some v)
        → (i j : ℕ) (x y : Cell p) → i < length h
        → length h ≤ j
        → let (copy, h') = deep_copy_checkout p l place h in
          AtPlace p (checkout_kind p) (CheckoutAt p vs) (set h' i x) copy (some v)
          × AtPlace p (checkout_kind p) (CheckoutAt p vs) (set h' j y) place (some v)
    write-deep_copy_checkout place v h view i j x y old new = (
      write_old checkout_pointer-Copies place (some v) h view i x old,
      write_new checkout_pointer-Copies place (some v) h view j y new,
    )
