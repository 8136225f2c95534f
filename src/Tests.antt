-- ===== src/Tests.antt =====
-- Runs of the definitions on concrete inputs, and the theorems applied to such inputs.
pub mod Certs
pub mod Kubernetes
pub mod Aws
pub mod Template
pub mod Adapter
pub mod Calls
pub mod Events
pub mod Worker
