-- ===== src/Tunnel.antt =====
-- pkg/tunnel: the server that runs in the cluster and forwards public traffic through the tunnel.
pub mod Recent
pub mod RequestLog
pub mod StatusRecorder
pub mod Traffic
pub mod Redirect
pub mod Audit
pub mod BasicCache
