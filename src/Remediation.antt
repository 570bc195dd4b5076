-- ===== src/Remediation.antt =====
-- Remediation texts, their dispatch and the approval of one finding (backend/remediation).
pub mod Templates
pub mod Service
pub mod Risk
pub mod Coverage
pub mod Execution
pub mod Tests
