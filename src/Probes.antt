-- ===== src/Probes.antt =====
-- zentral/core/probes: the tests that decide which events and machines a probe is about.
pub mod Attributes
pub mod Payload
pub mod Filters
pub mod Serializers
pub mod Probe
mod Examples
