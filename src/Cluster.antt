-- ===== src/Cluster.antt =====
-- internal/cluster: key slots, redirects, the topology and the routing of commands.
pub mod Crc16
pub mod Slot
pub mod Topology
pub mod Routing
pub mod Router
