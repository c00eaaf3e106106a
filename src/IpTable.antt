-- ===== src/IpTable.antt =====
-- The table of the CoAP clients: iptable/coap_iptable.c and coap_iptable.h.
pub mod Lines
pub mod Table
pub mod Print
pub mod Append
pub mod RoundTrip
pub mod Ends
mod Tests
