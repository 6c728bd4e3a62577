-- ===== src/Tests.antt =====
-- The theorems at concrete inputs, and tests of the definitions.
mod Queues
mod Muxing
mod Settings
mod Opening
mod Counting
mod Working
mod Streaming
mod Encoding
mod Capturing
mod Starting
mod Ending
mod Flowing
mod Logging
