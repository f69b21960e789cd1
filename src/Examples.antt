-- ===== src/Examples.antt =====
-- Concrete inputs: small stand-ins for the packages that the program calls, and runs on them.
pub mod Stand
pub mod Paths
pub mod Policies
pub mod Logs
pub mod Requests
pub mod Headers
pub mod Sessions
pub mod Clusters
