-- ===== src/Tests.antt =====
-- Concrete tables, services, chains and requests, and the theorems applied to them.
mod World
mod Addresses
mod Handshakes
mod Passes
mod Tunnels
mod Services
mod Clients
mod Sections
