-- ===== src/Process.antt =====
-- The processes: their options (pkg/opt), the run of a manager (pkg/runtime), and the commands
-- (cmd).
pub mod Config
pub mod Runtime
pub mod Started
pub mod Controllers
pub mod Commands
