-- ===== src/Execution/Network.antt =====
-- lib/execution/network-policy-service.ts. What the platform and ipaddr.js give is a parameter:
-- the range of an address, the addresses of a name, and the parts of a URL.
pub mod Hostname
pub mod Egress
pub mod Policy
