-- ===== src/Net.antt =====
-- breUtils/net: the header of a message, the sessions and the server, the sender and the receiver of
-- `TCPManager.hpp`, and the table of hosts.
pub mod Header
pub mod Session
pub mod Sender
pub mod Receiver
pub mod Server
pub mod Hosts
