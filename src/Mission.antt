-- ===== src/Mission.antt =====
-- Network missions: discovery from a seed, collection, audits and remediation campaigns
-- (backend/tasks/network_missions.py, backend/network_mission_service.py and the missions API).
pub mod Types
pub mod Discovery
pub mod Run
pub mod Routes
pub mod Summary
pub mod Campaign
pub mod Collect
pub mod Review
pub mod Tests
