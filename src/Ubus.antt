-- ===== src/Ubus.antt =====
-- pkg/ubus/ubus.go: calls of OpenWrt's ubus in a session that is opened on demand.
pub mod Errors
pub mod Wire
pub mod Session
pub mod Threads
pub mod Examples
