-- ===== src/Tests.antt =====
-- Runs of the model on concrete inputs, and the theorems at inputs that meet their conditions.
mod Buffers
mod Messages
mod Routing
mod Rows
mod Topology
mod Responses
mod Clients
mod Pools
mod Connections
mod Books
