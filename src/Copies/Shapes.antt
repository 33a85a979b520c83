-- ===== src/Copies/Shapes.antt =====
-- What a pointer and a slice promise when they are copied.
use pvpool.Prelude.{
  ℕ, zero, suc, ◌≤◌, ◌≡◌, refl, arith, Option, none, some, List, [], ◌∷◌, ◌++◌, length,
  length-append, get_elem?, Option-cases, inl, inr,
}
use pvpool.Copies.Memory.{Place, Parts, Heap, Copy}
use pvpool.Copies.DeepCopy.{Kind, load_cell, pointer, move_to}
use pvpool.Copies.Rules.{Includes, Extends, Viewing, Copies}

module _ {A : Type 0} where
  get_elem?-append :
      (l : List A) (x y : A) (i : ℕ) → get_elem? l i ≡ some y → get_elem? (l ++ x ∷ []) i ≡ some y
  get_elem?-append [] x y i e = absurd (cc)
  get_elem?-append (z ∷ l) x y zero e = e
  get_elem?-append (z ∷ l) x y (suc i) e = get_elem?-append l x y i e

  get_elem?-last : (l : List A) (x : A) → get_elem? (l ++ x ∷ []) (length l) ≡ some x
  get_elem?-last [] x = refl
  get_elem?-last (z ∷ l) x = get_elem?-last l x

module _ (p : Parts) where
  -- A pointer to a value, or nil.
  abbrev pub AtPlace : {A V : Type 0} → Kind p A → Viewing p A V → Viewing p Place (Option V)
  AtPlace kind P h none none = Unit {0}
  AtPlace kind P h none (some v) = ⊥
  AtPlace kind P h (some i) none = ⊥
  AtPlace {A} kind P h (some i) (some v) = (a : A) × (load_cell p kind h i ≡ some a) × P h a v

  -- A slice, where a nil slice is an empty list.
  abbrev or_empty : {V : Type 0} → Option (List V) → List V
  or_empty none = []
  or_empty (some l) = l

  pub record AtSlice {A V : Type 0} (kind : Kind p (List A)) (P : Viewing p (List A) (List V))
      (h : Heap p) (place : Place) (l : List V) : Type 0 where
    pub o : Option (List V)
    pub is_there : AtPlace kind P h place o
    pub is_l : or_empty o ≡ l

  module _ {A V : Type 0} (kind : Kind p A) {f : Copy p A} {P : Viewing p A V} (c : Copies p f P)
      (read_make : (a : A) → kind.read (kind.make a) ≡ some a) where
    load_cell-kept :
        (n : ℕ) (h h' : Heap p) (i : ℕ) (a : A)
        → n ≤ i
        → Includes p n h h'
        → load_cell p kind h i ≡ some a
        → load_cell p kind h' i ≡ some a
    load_cell-kept n h h' i a le inc e = elim (Option-cases (get_elem? h i)) [
      | inl missing ↦ absurd (cc (rw (load_cell, missing) at e))
      | inr (x, found) ↦ rw (load_cell, inc i x le found) (rw (load_cell, found) at e)
    ]

    move-Extends :
        (d : A × Heap p) (h : Heap p) → Extends p h d.1 → Extends p h (move_to p kind d).1
    move-Extends (a, h1) h e = record {
      includes = λ i x le g. get_elem?-append h1 (kind.make a) x i (e.includes i x le g);
      longer = omega (arith, e.longer, length-append h1 (kind.make a ∷ []));
    }

    pointer-Extends : (place : Place) (h : Heap p) → Extends p h (pointer p kind f place h).1
    pointer-Extends none h = record { includes = λ i x le e. e; longer = omega arith }
    pointer-Extends (some i) h = elim (Option-cases (load_cell p kind h i)) [
      | inl missing ↦ rw missing (record { includes = λ i x le e. e; longer = omega arith })
      | inr (a, e) ↦ rw e (move-Extends (f a h) h (c.extends a h))
    ]

    pointer-kept :
        (place : Place) (o : Option V) (h h' : Heap p)
        → Includes p 0 h h'
        → AtPlace kind P h place o
        → AtPlace kind P h' place o
    pointer-kept none none h h' i v = tt
    pointer-kept none (some w) h h' i v = v
    pointer-kept (some n) none h h' i v = v
    pointer-kept (some n) (some w) h h' i (a, e, v) =
        (a, load_cell-kept 0 h h' n a (omega arith) i e, c.kept a w h h' i v)

    move-copied :
        (a : A) (w : V) (h h' : Heap p)
        → P h a w
        → Includes p (length h) (move_to p kind (f a h)).1 h'
        → AtPlace kind P h' (move_to p kind (f a h)).0 (some w)
    move-copied a w h h' v inc =
        let b = (f a h).0 in
        let h1 = (f a h).1 in
        (
          b,
          load_cell-kept (length h) (h1 ++ kind.make b ∷ []) h' (length h1) b (c.extends a h).longer
              inc (rw (load_cell, get_elem?-last h1 (kind.make b)) (read_make b)),
          c.copied a w h h' v λ i x le e. inc i x le (get_elem?-append h1 (kind.make b) x i e),
        )

    pointer-copied :
        (place : Place) (o : Option V) (h h' : Heap p)
        → AtPlace kind P h place o
        → Includes p (length h) (pointer p kind f place h).1 h'
        → AtPlace kind P h' (pointer p kind f place h).0 o
    pointer-copied none none h h' v inc = tt
    pointer-copied none (some w) h h' v inc = v
    pointer-copied (some n) none h h' v inc = absurd v
    pointer-copied (some n) (some w) h h' (a, e, v) inc =
        rw e (move-copied a w h h' v (rw e at inc))

    pub pointer-Copies : Copies p (pointer p kind f) (AtPlace kind P)
    pointer-Copies = record {
      extends = pointer-Extends;
      kept = pointer-kept;
      copied = pointer-copied;
    }

  pub slice-Copies :
      {A V : Type 0} (kind : Kind p (List A)) {f : Copy p (List A)}
      {P : Viewing p (List A) (List V)}
      → Copies p f P
      → ((l : List A) → kind.read (kind.make l) ≡ some l)
      → Copies p (pointer p kind f) (AtSlice kind P)
  slice-Copies kind c read_make =
      let d = pointer-Copies kind c read_make in
      record {
        extends = d.extends;
        kept = λ a l h h' i v. record {
          o = v.o;
          is_there = d.kept a v.o h h' i v.is_there;
          is_l = v.is_l;
        };
        copied = λ a l h h' v i. record {
          o = v.o;
          is_there = d.copied a v.o h h' v.is_there i;
          is_l = v.is_l;
        };
      }
