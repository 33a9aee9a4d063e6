-- ===== src/Transform.antt =====
-- backend/voidswitch/services/transform.py: the translation between the dialects of the gateway.
-- Texts that the code cuts up are lists of code points; `json.loads` and the UTF-8 decoder are the
-- fields of `Codec`.
pub mod Sse
pub mod Frames
pub mod Reading
pub mod RoundTrip
pub mod Values
pub mod ToAnthropic
pub mod Numbered
pub mod Folding
mod Tests
