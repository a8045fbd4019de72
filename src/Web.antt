-- ===== src/Web.antt =====
-- cmd/provisioner: the web server of the provisioner.
pub mod Forwarded
pub mod Handlers
pub mod Serve
