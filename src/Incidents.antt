-- ===== src/Incidents.antt =====
-- internal/incidents: severities, fingerprints and the lifecycle of an incident.
pub mod Incident
pub mod Fingerprint
pub mod Lifecycle
