-- ===== src/Provisioner.antt =====
-- internal/provisioner: consumer workspaces of kcp, their bindings and credentials, and the
-- kubeconfigs that are made for them.
pub mod Env
pub mod Bindings
pub mod Credentials
pub mod Workspaces
pub mod Listing
pub mod Kubeconfig
pub mod Host
pub mod Headlamp
pub mod Stays
pub mod Reads
pub mod Settles
