-- ===== src/Net.antt =====
-- kernel/src/net: the address pool and the switch of vswitch.rs, the HTTP client of http.rs, the network
-- driver of virtio_net.rs, the requests of tls.rs and the responder of mod.rs.
pub mod IpPool
pub mod VSwitch
pub mod Http
pub mod Virtio
pub mod Tls
pub mod Web
