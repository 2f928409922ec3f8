-- ===== src/Incidents.antt =====
-- zentral/core/incidents: incidents and machine incidents, opened and closed by events.
pub mod Status
pub mod Store
pub mod Updates
mod Examples
