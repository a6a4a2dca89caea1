-- ===== src/Protocol.antt =====
-- internal/transform/protocol: TCP and UDP services, and HTTP load balancers.
pub mod Ports
pub mod Servers
pub mod TcpUdp
pub mod Conversion
