-- ===== src/Socks.antt =====
-- internal/socks/socks.go: connections through SOCKS4, SOCKS4a and SOCKS5 proxies.
pub mod Wire
pub mod Version4
pub mod Version5
pub mod Dial
