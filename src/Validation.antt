-- ===== src/Validation.antt =====
-- pkg/apis/pvpool.puppet.com/v1alpha1/validation/validation.go. A field error carries its kind,
-- its path and its detail; the bad value that the library prints with it is left out.
pub mod Limits
pub mod Rules
