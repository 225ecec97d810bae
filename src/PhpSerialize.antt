-- ===== src/PhpSerialize.antt =====
-- pkg/phpserialize: PHP's serialize format. Values, encoder, decoder, accessors, ModelIdentifier.
pub mod Value
pub mod Floats
pub mod Names
pub mod Encoder
pub mod Decoder
pub mod Fuel
pub mod Normal
pub mod RoundTrip
pub mod Helpers
pub mod ModelIdentifier
pub mod Panics
pub mod Sample
mod Tests
