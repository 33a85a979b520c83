-- ===== src/Api.antt =====
-- The data of the API: Kubernetes' own objects as far as the controllers read or write them
-- (Api/Core), this program's custom resources (Api/Resources: pkg/apis/pvpool.puppet.com/v1alpha1)
-- and the state that a reconcile works on (Api/State: pkg/controller/app).
pub mod Core
pub mod Resources
pub mod State
