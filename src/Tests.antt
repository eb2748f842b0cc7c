-- ===== src/Tests.antt =====
-- Runs of the modelled code at concrete inputs.
mod Dns
mod Ping
mod Url
mod Http
mod Firewall
mod Hashmap
mod Dnsmasq
mod Cache
mod Insert
