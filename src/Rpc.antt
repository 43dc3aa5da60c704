-- ===== src/Rpc.antt =====
-- The RPC over datagrams: rpc_intf/intf/rpc_msg.h, rpc_intf/intf/rpc_intf.c,
-- rpc_intf/lib/utils.c, rpc_intf/src/rpc_cmd.c and the loop of rpc_intf/src/server.c.
pub mod Message
pub mod Intf
pub mod Checksum
pub mod RoundTrip
pub mod Commands
pub mod Server
pub mod Client
mod Tests
