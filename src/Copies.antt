-- ===== src/Copies.antt =====
-- The deep copies that controller-gen writes for the API types
-- (pkg/apis/pvpool.puppet.com/v1alpha1/zz_generated.deepcopy.go and
-- pkg/webhook/zz_generated.deepcopy.go), over Go's memory.
pub mod Memory
pub mod DeepCopy
pub mod Rules
pub mod Shapes
pub mod Values
pub mod Laws
pub mod Apart
pub mod Wrappers
pub mod Objects
