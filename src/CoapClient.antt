-- ===== src/CoapClient.antt =====
-- The CoAP client: coapClient/picocoap.c with the inline functions of picocoap.h, and the message that
-- coapClient/coapClient.c sends in its loop.
pub mod Pdu
pub mod Decode
pub mod Getters
pub mod Setters
pub mod Options
pub mod Client
pub mod Start
pub mod Header
pub mod HeaderDecode
pub mod Message
pub mod RequestSteps
pub mod Request
pub mod Rounds
pub mod Sequence
pub mod Fields
pub mod Payload
pub mod Places
pub mod Adding
pub mod AddedOptions
pub mod Building
pub mod NextOption
pub mod LookupRounds
pub mod Lookup
pub mod Validate
pub mod TokenRoom
pub mod Token
mod Tests
