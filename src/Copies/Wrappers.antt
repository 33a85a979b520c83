-- ===== src/Copies/Wrappers.antt =====
-- What holds a pointer to a pool or a checkout: the wrappers of
-- pkg/apis/pvpool.puppet.com/v1alpha1/obj with their Copy, and the validators of
-- pkg/webhook/zz_generated.deepcopy.go.
use pvpool.Prelude.{◌≡◌, refl, Option}
use pvpool.Api.Core.{Key}
use pvpool.Copies.Memory.{Place, Parts, Copy, Library, MemValidator}
use pvpool.Copies.DeepCopy.{
  pool_kind, checkout_kind, pointer, copy_pool, copy_checkout, deep_copy_pool, deep_copy_checkout,
}
use pvpool.Copies.Rules.{Viewing, Copies, struct-Copies}
use pvpool.Copies.Shapes.{AtPlace, pointer-Copies}
use pvpool.Copies.Values.{Views, PoolObject, CheckoutObject, PoolAt, CheckoutAt}
use pvpool.Copies.Laws.{LibraryLaws, pool-Copies, checkout-Copies}

-- obj.Pool and obj.Checkout: Key and Object.
pub record Wrapper : Type 0 where
  pub key : Key
  pub object : Place

-- makePool and makeCheckout.
abbrev pub make_wrapper : Key → Place → Wrapper
make_wrapper key object = record { key = key; object = object }

module _ (p : Parts) (l : Library p) where
  unfoldable pub copy_pool_wrapper : Copy p Wrapper
  copy_pool_wrapper w h =
      let (object, h1) = deep_copy_pool p l w.object h in (make_wrapper w.key object, h1)

  unfoldable pub copy_checkout_wrapper : Copy p Wrapper
  copy_checkout_wrapper w h =
      let (object, h1) = deep_copy_checkout p l w.object h in (make_wrapper w.key object, h1)

  unfoldable pub copy_pool_validator : Copy p (MemValidator p)
  copy_pool_validator v h =
      let (object, h1) = pointer p (pool_kind p) (copy_pool p l) v.object h in
      (record v { object = object }, h1)

  unfoldable pub copy_checkout_validator : Copy p (MemValidator p)
  copy_checkout_validator v h =
      let (object, h1) = pointer p (checkout_kind p) (copy_checkout p l) v.object h in
      (record v { object = object }, h1)

  module _ (vs : Views p) (laws : LibraryLaws p vs l) where
    -- The wrapped object, under the same key.
    abbrev pub PoolWrapperAt : Viewing p Wrapper (Key × Option (PoolObject p vs))
    PoolWrapperAt h w v = AtPlace p (pool_kind p) (PoolAt p vs) h w.object v.1 × (w.key ≡ v.0)

    abbrev pub CheckoutWrapperAt : Viewing p Wrapper (Key × Option (CheckoutObject p vs))
    CheckoutWrapperAt h w v =
        AtPlace p (checkout_kind p) (CheckoutAt p vs) h w.object v.1 × (w.key ≡ v.0)

    pub copy_pool_wrapper-Copies : Copies p copy_pool_wrapper PoolWrapperAt
    unfolding copy_pool_wrapper deep_copy_pool
    copy_pool_wrapper-Copies =
        struct-Copies p (λ w. w.object) (λ o w. record w { object = o }) (λ v. v.1)
          (λ w v. w.key ≡ v.0) (λ _ _. refl) (λ _ _ _ h. h)
          (pointer-Copies p (pool_kind p) (pool-Copies p vs l laws) λ _. refl)

    pub copy_checkout_wrapper-Copies : Copies p copy_checkout_wrapper CheckoutWrapperAt
    unfolding copy_checkout_wrapper deep_copy_checkout
    copy_checkout_wrapper-Copies =
        struct-Copies p (λ w. w.object) (λ o w. record w { object = o }) (λ v. v.1)
          (λ w v. w.key ≡ v.0) (λ _ _. refl) (λ _ _ _ h. h)
          (pointer-Copies p (checkout_kind p) (checkout-Copies p vs l laws) λ _. refl)

    pub copy_pool_validator-Copies :
        Copies p copy_pool_validator
          λ h v o. AtPlace p (pool_kind p) (PoolAt p vs) h v.object o × Unit {0}
    unfolding copy_pool_validator
    copy_pool_validator-Copies =
        struct-Copies p (λ v. v.object) (λ o v. record v { object = o }) (λ o. o) (λ _ _. Unit {0})
          (λ _ _. refl) (λ _ _ _ h. h)
          (pointer-Copies p (pool_kind p) (pool-Copies p vs l laws) λ _. refl)

    pub copy_checkout_validator-Copies :
        Copies p copy_checkout_validator
          λ h v o. AtPlace p (checkout_kind p) (CheckoutAt p vs) h v.object o × Unit {0}
    unfolding copy_checkout_validator
    copy_checkout_validator-Copies =
        struct-Copies p (λ v. v.object) (λ o v. record v { object = o }) (λ o. o) (λ _ _. Unit {0})
          (λ _ _. refl) (λ _ _ _ h. h)
          (pointer-Copies p (checkout_kind p) (checkout-Copies p vs l laws) λ _. refl)
