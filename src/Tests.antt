-- ===== src/Tests.antt =====
-- Runs of the theorems at concrete inputs.
mod Memory
mod Fixtures
mod Pure
mod Proxy
mod Controller
mod Provisioner
mod Mck
mod Host
mod Headlamp
mod Loop
mod Web
mod Nodes
mod Untouched
mod Calico
mod System
