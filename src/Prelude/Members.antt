-- ===== src/Prelude/Members.antt =====
-- A property of all elements of a list, and of each of its members.
use mathlib.Core.List.{Mem, mem-cons, mem-cons_self, mem-cons_of_mem, not-mem-nil}
use mathlib.Core.Logic.Or
use pvpool.Prelude.{
  subst, ℕ, zero, suc, ◌≡◌, Option, some, List, [], ◌∷◌, All, set, take, get_elem?, map,
}

pub some-eq : {A : Type 0} {x y : A} → ◌≡◌ {A = Option A} (some x) (some y) → x ≡ y
some-eq e = cc

module _ {A : Type 0} (P : A → Type 0) where
  pub All-mem : ((a : A) → IsProp (P a)) → (l : List A) → All P l → (a : A) → Mem a l → P a
  All-mem prop [] h a m = absurd (not-mem-nil m)
  All-mem prop (x ∷ l) h a m =
      Or.elim (prop a) (mem-cons.0 m) (λ e. rw e h.0) (All-mem prop l h.1 a)

  pub All-of_mem : (l : List A) → ((a : A) → Mem a l → P a) → All P l
  All-of_mem [] h = tt
  All-of_mem (x ∷ l) h = (h x mem-cons_self, All-of_mem l λ a m. h a (mem-cons_of_mem x m))

  pub All-set : (l : List A) (i : ℕ) (a : A) → All P l → P a → All P (set l i a)
  All-set [] i a h p = tt
  All-set (x ∷ l) zero a h p = (p, h.1)
  All-set (x ∷ l) (suc i) a h p = (h.0, All-set l i a h.1 p)

  pub All-take : (n : ℕ) (l : List A) → All P l → All P (take n l)
  All-take zero l h = tt
  All-take (suc n) [] h = tt
  All-take (suc n) (x ∷ l) h = (h.0, All-take n l h.1)

  pub All-get_elem? : (l : List A) (i : ℕ) {a : A} → All P l → get_elem? l i ≡ some a → P a
  All-get_elem? [] i h e = absurd (cc)
  All-get_elem? (x ∷ l) zero h e = subst P (some-eq e) h.0
  All-get_elem? (x ∷ l) (suc i) h e = All-get_elem? l i h.1 e

  pub All-map : (f : A → A) (l : List A) → ((a : A) → P a → P (f a)) → All P l → All P (map f l)
  All-map f [] step h = tt
  All-map f (x ∷ l) step h = (step x h.0, All-map f l step h.1)
