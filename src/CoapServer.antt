-- ===== src/CoapServer.antt =====
-- The CoAP server of coapServer/: microcoap.c, endpoints.c and coapServer.c.
pub mod Packet
pub mod Parse
pub mod Build
pub mod ParseSafety
pub mod Format
pub mod BuildFormat
pub mod OptionsFormat
pub mod ParseFormat
pub mod RoundTrip
pub mod BuildSteps
pub mod BuildBounds
pub mod Respond
pub mod Endpoints
pub mod FindOptions
pub mod Dispatch
pub mod Response
pub mod Reply
pub mod Serve
pub mod ServeSafety
pub mod Loop
pub mod LoopSafety
pub mod Hello
pub mod Listing
mod Tests
