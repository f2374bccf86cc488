-- ===== src/Net.antt =====
-- Connections: include/hohnor/net and src/net.
pub mod TcpConnection
pub mod TcpConnector
pub mod TcpAcceptor
