-- ===== src/OpenWrt.antt =====
-- pkg/openwrt
pub mod Types
pub mod Dnsmasq
pub mod Index
pub mod Sections
pub mod Apply
pub mod Examples
