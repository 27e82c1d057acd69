-- ===== src/Server.antt =====
-- src/uv_net.cpp, class uvnet: the TCP server.
pub mod Writes
pub mod Clients
pub mod Reading
pub mod Binding
pub mod Running
pub mod Ending
