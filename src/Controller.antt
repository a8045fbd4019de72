-- ===== src/Controller.antt =====
-- internal/controller/kubernetes: the controller of Kubernetes objects and the mount proxy.
pub mod Taints
pub mod Names
pub mod Proxy
pub mod Env
pub mod Mount
pub mod Workload
pub mod Status
pub mod Reconcile
pub mod Steps
mod Frame
