-- ===== src/Sockets.antt =====
-- src/sock-tcp.c, sock-udp.c, usock-tcp.c, usock-udp.c, vsock-tcp.c, vsock-udp.c, csock-raw.c: a
-- module for each, over the system calls and the steps that they share.
pub mod System
pub mod Steps
pub mod Tcp
pub mod Udp
pub mod UnixTcp
pub mod UnixUdp
pub mod VmTcp
pub mod VmUdp
pub mod Can
pub mod Results
pub mod Triples
pub mod Descriptors
pub mod Endpoint
pub mod Sessions
pub mod Datagrams
pub mod Ack
