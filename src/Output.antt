-- ===== src/Output.antt =====
-- The back ends under output/.
pub mod Strapp
pub mod Lines
pub mod Ipfilter
pub mod Cisco
pub mod Emit
pub mod Iptables
pub mod Restore
pub mod Ipchains
mod Tests
mod ChainTests
