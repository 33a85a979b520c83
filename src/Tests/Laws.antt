-- ===== src/Tests/Laws.antt =====
-- The laws that the theorems ask of the third-party code, for the small API server.
use mathlib.Core.List.{Perm}
use mathlib.Core.List.Perm
use pvpool.Prelude.{
  ℕ, ◌<◌, ◌≡◌, refl, Bool, true, false, List, [], ◌∷◌, arith, eq_refl, String, Option, none, some,
  is_some, All, subst, Bool-cases, inl, inr,
}
use pvpool.Prelude.Members.{some-eq}
use pvpool.Exec.{ok, Returns}
use pvpool.Api.Core.{Pv}
use pvpool.Kube.Laws.{
  RandLaws, DeleteLaws, PersistLaws, ReplicaLaws, AnnotateLaws, CopyLaws, SortLaws, IsSorted,
  LoadLaws, ReconcileLaws,
}
use pvpool.Tests.Cluster.{
  Cluster, toy, draw, insert, sort, find, remove, found_or, missing_or, is_claimed,
}

draw_lt : (r n : ℕ) → 0 < n → draw r n < n
draw_lt r n h = ground arith

pub toy-RandLaws : RandLaws toy
toy-RandLaws = record { uint64_n-Draws = λ r n w h. draw_lt r n h }

pub toy-DeleteLaws : DeleteLaws toy
toy-DeleteLaws = record {
  new_rng-Returns = λ _. tt;
  delete_job-Returns = λ _ _. tt;
  delete_pvc-Returns = λ _ _. tt;
}

pub toy-PersistLaws : PersistLaws toy
toy-PersistLaws = record {
  checkout_owns-Returns = λ _ _. tt;
  persist_pvc-Returns = λ _. tt;
  delete_pvc-Returns = λ _ _. tt;
  persist_pv-Returns = λ _. tt;
  delete_pv-Returns = λ _ _. tt;
}

pub toy-ReplicaLaws : ReplicaLaws toy
toy-ReplicaLaws = record {
  pool_owns-Returns = λ _ _. tt;
  replica_persist_pvc-Returns = λ _. tt;
  replica_delete_job-Returns = λ _ _. tt;
  set_dependency_of-Returns = λ _ _. tt;
  persist_owned-Returns = λ _. tt;
}

pub toy-AnnotateLaws : AnnotateLaws toy
toy-AnnotateLaws = record { annotate_self = λ m key v. ground (arith, eq_refl key) }

pub toy-CopyLaws : CopyLaws toy
toy-CopyLaws = record { copy_idem = λ _ _. refl }

pub find_holds : {A : Type 0} (p : A → Bool) (l : List A) (a : A) → find p l ≡ some a → p a ≡ true
find_holds p [] a h = absurd (cc)
find_holds {A} p (x ∷ l) a h = elim (Bool-cases (p x)) [
  | inl here ↦
      let same : ◌≡◌ {A = Option A} (some x) (some a) = rw here at h in
      subst (λ y. p y ≡ true) (some-eq same) here
  | inr there ↦ find_holds p l a (rw there at h)
]

pub find-All :
    {A : Type 0} (P : A → Type 0) (p : A → Bool) (l : List A) (a : A)
    → All P l
    → find p l ≡ some a
    → P a
find-All P p [] a h e = absurd (cc)
find-All P p (x ∷ l) a h e = elim (Bool-cases (p x)) [
  | inl here ↦ subst P (some-eq (rw here at e)) h.0
  | inr there ↦ find-All P p l a h.1 (rw there at e)
]

pub find-remove :
    {A : Type 0} (p q : A → Bool) (l : List A)
    → ((x : A) → q x ≡ true → p x ≡ false)
    → find p (remove q l) ≡ find p l
find-remove p q [] h = refl
find-remove p q (x ∷ l) h = elim (Bool-cases (q x)) [
  | inl gone ↦ rw (gone, h x gone) (find-remove p q l h)
  | inr stays ↦ elim (Bool-cases (p x)) [
    | inl it ↦ rw (stays, it) refl
    | inr other ↦ rw (stays, other) (find-remove p q l h)
  ]
]

pub All-remove :
    {A : Type 0} (P : A → Type 0) (q : A → Bool) (l : List A) → All P l → All P (remove q l)
All-remove P q [] h = tt
All-remove P q (x ∷ l) h = elim (Bool-cases (q x)) [
  | inl gone ↦ rw gone (All-remove P q l h.1)
  | inr stays ↦ rw stays (h.0, All-remove P q l h.1)
]

found_or-Returns : {A : Type 0} (o : Option A) (s : Cluster × A) → Returns (found_or o s).0
found_or-Returns none s = tt
found_or-Returns (some a) s = tt

missing_or-Returns : {A : Type 0} (o : Option A) (s : Cluster × A) → Returns (missing_or o s).0
missing_or-Returns none s = tt
missing_or-Returns (some a) s = tt

pub found_or-eq-some :
    {A : Type 0} (o : Option A) (s t : Cluster × A) → found_or o s ≡ (ok true, t) → o ≡ some t.1
found_or-eq-some none s t h = absurd (cc)
found_or-eq-some (some a) s t h = cc

claimed_refers :
    (name : String) (v : Pv) → is_claimed name v ≡ true → is_some v.spec.claim_ref ≡ true
claimed_refers name v h = ground arith

pub toy-LoadLaws : LoadLaws toy
toy-LoadLaws = record {
  load_job-Returns = λ _. tt;
  load_pvc-Returns = λ s. found_or-Returns _ s;
  load_pv-Returns = λ s. found_or-Returns _ s;
  list_pvcs-Returns = λ _ _ _. tt;
  as_selector-Returns = λ _. tt;
  bound_volume-Refers = λ s t u found bound e. claimed_refers t.1.spec.volume_name u.1 (
      find_holds (is_claimed t.1.spec.volume_name) t.0.volumes u.1 (
        found_or-eq-some (find (is_claimed t.1.spec.volume_name) t.0.volumes)
          (t.0, toy.new_pv t.1.spec.volume_name) u e));
}

pub toy-ReconcileLaws : ReconcileLaws toy
toy-ReconcileLaws = record {
  new_id-Returns = λ _. tt;
  load_pool-Returns = λ s. found_or-Returns _ s;
  require_pool-Returns = λ s. missing_or-Returns _ s;
  update_pool_status-Returns = λ _. tt;
  load_checkout-Returns = λ _. tt;
  update_checkout_status-Returns = λ _. tt;
  finalize-Returns = λ _ _ _ _. tt;
}

module _ {A : Type 0} (less : A → A → Bool) where
  insert-perm : (x : A) (l : List A) → Perm (insert less x l) (x ∷ l)
  insert-perm x [] = Perm.refl (x ∷ [])
  insert-perm x (y ∷ l) = elim (Bool-cases (less y x)) [
    | inl h ↦ rw h (Perm.trans (Perm.cons y (insert-perm x l)) (Perm.swap x y l))
    | inr h ↦ rw h (Perm.refl (x ∷ y ∷ l))
  ]

  sort-perm : (l : List A) → Perm (sort less l) l
  sort-perm [] = Perm.refl []
  sort-perm (x ∷ l) = Perm.trans (insert-perm x (sort less l)) (Perm.cons x (sort-perm l))

  module _ (asymm : (a b : A) → less a b ≡ true → less b a ≡ false) where
    insert-IsSorted : (x : A) (l : List A) → IsSorted less l → IsSorted less (insert less x l)
    insert-IsSorted x [] h = tt
    insert-IsSorted x (y ∷ []) h = elim (Bool-cases (less y x)) [
      | inl lt ↦ rw lt (asymm y x lt, tt)
      | inr ge ↦ rw ge (ge, tt)
    ]
    insert-IsSorted x (y ∷ z ∷ l) h = elim (Bool-cases (less y x)) [
      | inr ge ↦ rw ge (ge, h)
      | inl lt ↦ rw lt (deeper lt (insert-IsSorted x (z ∷ l) h.1))
    ]
      where
        deeper :
            less y x ≡ true
            → IsSorted less (insert less x (z ∷ l))
            → IsSorted less (y ∷ insert less x (z ∷ l))
        deeper lt i = elim (Bool-cases (less z x)) [
          | inl p ↦ rw p (h.0, rw p at i)
          | inr p ↦ rw p (asymm y x lt, rw p at i)
        ]

    sort-IsSorted : (l : List A) → IsSorted less (sort less l)
    sort-IsSorted [] = tt
    sort-IsSorted (x ∷ l) = insert-IsSorted x (sort less l) (sort-IsSorted l)

pub toy-SortLaws : SortLaws toy
toy-SortLaws = record {
  sort-perm = λ less rs. sort-perm less rs;
  sort-IsSorted = λ less rs asymm _. sort-IsSorted less asymm rs;
}
