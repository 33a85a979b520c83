-- ===== src/Copies/Rules.antt =====
-- What a deep copy promises, and that the ways to compose copies keep the promise.
use pvpool.Prelude.{ℕ, ◌≤◌, ◌≡◌, sym, subst, arith, some, List, [], ◌∷◌, length, get_elem?}
use pvpool.Copies.Memory.{Parts, Cell, Heap, Copy}
use pvpool.Copies.DeepCopy.{elements, plain}

module _ (p : Parts) where
  -- The cells from a place on are the same in the second memory.
  abbrev pub Includes : ℕ → Heap p → Heap p → Type 0
  Includes n h h' = (i : ℕ) (c : Cell p) → n ≤ i → get_elem? h i ≡ some c → get_elem? h' i ≡ some c

  pub record Extends (h h' : Heap p) : Type 0 where
    pub includes : Includes 0 h h'
    pub longer : length h ≤ length h'

  Extends-refl : (h : Heap p) → Extends h h
  Extends-refl h = record { includes = λ i c le e. e; longer = omega arith }

  Extends-trans : (h h1 h2 : Heap p) → Extends h h1 → Extends h1 h2 → Extends h h2
  Extends-trans h h1 h2 a b = record {
    includes = λ i c le e. b.includes i c le (a.includes i c le e);
    longer = omega (arith, a.longer, b.longer);
  }

  -- From a later place, and in a smaller memory.
  Includes-weaken :
      (n : ℕ) (h h1 h' : Heap p) → Includes 0 h h1 → Includes n h1 h' → Includes n h h'
  Includes-weaken n h h1 h' a b i c le e = b i c le (a i c (omega arith) e)

  Includes-from : (n m : ℕ) (h h' : Heap p) → n ≤ m → Includes n h h' → Includes m h h'
  Includes-from n m h h' le a i c le' e = a i c (omega (arith, le, le')) e

  -- The struct, with all that it points to, is this value.
  abbrev pub Viewing : Type 0 → Type 0 → Type 1
  Viewing A V = Heap p → A → V → Type 0

  -- A copy leaves all that there was in place. It has the value of the original, and keeps it
  -- whatever becomes of the memory that there was before.
  pub record Copies {A V : Type 0} (copy : Copy p A) (View : Viewing A V) : Type 0 where
    pub extends : (a : A) (h : Heap p) → Extends h (copy a h).1
    pub kept : (a : A) (v : V) (h h' : Heap p) → Includes 0 h h' → View h a v → View h' a v
    pub copied :
        (a : A) (v : V) (h h' : Heap p)
        → View h a v
        → Includes (length h) (copy a h).1 h'
        → View h' (copy a h).0 v

  abbrev pub Exactly : {A : Type 0} → Viewing A A
  Exactly h a v = a ≡ v

  pub plain-Copies : {A : Type 0} → Copies {A = A} (plain p) Exactly
  plain-Copies = record {
    extends = λ a h. Extends-refl h;
    kept = λ a v h h' _ e. e;
    copied = λ a v h h' e _. e;
  }

  abbrev pub Both : {A B V W : Type 0} → Viewing A V → Viewing B W → Viewing (A × B) (V × W)
  Both P Q h x y = P h x.0 y.0 × Q h x.1 y.1

  abbrev pub copy_both : {A B : Type 0} → Copy p A → Copy p B → Copy p (A × B)
  copy_both f g x h = let (a, h1) = f x.0 h in let (b, h2) = g x.1 h1 in ((a, b), h2)

  pub Both-Copies :
      {A B V W : Type 0} {f : Copy p A} {g : Copy p B} {P : Viewing A V} {Q : Viewing B W}
      → Copies f P
      → Copies g Q
      → Copies (copy_both f g) (Both P Q)
  Both-Copies {f = f} {g = g} c d = record {
    extends = λ x h. Extends-trans h (f x.0 h).1 _ (c.extends x.0 h) (d.extends x.1 (f x.0 h).1);
    kept = λ x y h h' i v. (c.kept x.0 y.0 h h' i v.0, d.kept x.1 y.1 h h' i v.1);
    copied = λ x y h h' v i.
        let h1 = (f x.0 h).1 in
        let first = c.extends x.0 h in
        (
          c.copied x.0 y.0 h h' v.0
              (Includes-weaken (length h) h1 _ h' (d.extends x.1 h1).includes i),
          d.copied x.1 y.1 h1 h' (d.kept x.1 y.1 h h1 first.includes v.1)
              (Includes-from (length h) (length h1) _ h' first.longer i),
        );
  }

  -- A struct, of which a copy copies some fields by a copy of theirs and the rest plainly.
  pub struct-Copies :
      {S A V W : Type 0} {f : Copy p A} {P : Viewing A V} (get : S → A) (put : A → S → S)
      (value : W → V) (Rest : S → W → Type 0)
      → ((a : A) (s : S) → get (put a s) ≡ a)
      → ((a : A) (s : S) (w : W) → Rest s w → Rest (put a s) w)
      → Copies f P
      → Copies
          (λ s h. (put (f (get s) h).0 s, (f (get s) h).1))
          (λ h s w. P h (get s) (value w) × Rest s w)
  struct-Copies {f = f} {P = P} get put value Rest get_put rest c = record {
    extends = λ s h. c.extends (get s) h;
    kept = λ s w h h' i v. (c.kept (get s) (value w) h h' i v.0, v.1);
    copied = λ s w h h' v i. (
      subst (λ a. P h' a (value w)) (sym (get_put (f (get s) h).0 s))
          (c.copied (get s) (value w) h h' v.0 i),
      rest (f (get s) h).0 s w v.1,
    );
  }

  abbrev pub Each : {A V : Type 0} → Viewing A V → Viewing (List A) (List V)
  Each P h [] [] = Unit {0}
  Each P h [] (v ∷ l) = ⊥
  Each P h (a ∷ m) [] = ⊥
  Each P h (a ∷ m) (v ∷ l) = P h a v × Each P h m l

  module _ {A V : Type 0} {f : Copy p A} {P : Viewing A V} (c : Copies f P) where
    elements-Extends : (m : List A) (h : Heap p) → Extends h (elements p f m h).1
    elements-Extends [] h = Extends-refl h
    elements-Extends (a ∷ m) h =
        Extends-trans h (f a h).1 _ (c.extends a h) (elements-Extends m (f a h).1)

    elements-kept :
        (m : List A) (l : List V) (h h' : Heap p) → Includes 0 h h' → Each P h m l → Each P h' m l
    elements-kept [] [] h h' i v = tt
    elements-kept [] (w ∷ l) h h' i v = v
    elements-kept (a ∷ m) [] h h' i v = v
    elements-kept (a ∷ m) (w ∷ l) h h' i v = (c.kept a w h h' i v.0, elements-kept m l h h' i v.1)

    elements-copied :
        (m : List A) (l : List V) (h h' : Heap p)
        → Each P h m l
        → Includes (length h) (elements p f m h).1 h'
        → Each P h' (elements p f m h).0 l
    elements-copied [] [] h h' v i = tt
    elements-copied [] (w ∷ l) h h' v i = v
    elements-copied (a ∷ m) [] h h' v i = absurd v
    elements-copied (a ∷ m) (w ∷ l) h h' v i =
        let h1 = (f a h).1 in
        let first = c.extends a h in
        (
          c.copied a w h h' v.0
              (Includes-weaken (length h) h1 _ h' (elements-Extends m h1).includes i),
          elements-copied m l h1 h' (elements-kept m l h h1 first.includes v.1)
              (Includes-from (length h) (length h1) _ h' first.longer i),
        )

    pub elements-Copies : Copies (elements p f) (Each P)
    elements-Copies = record {
      extends = elements-Extends;
      kept = elements-kept;
      copied = elements-copied;
    }
