-- ===== src/Compliance.antt =====
-- The compliance package (backend/compliance): the control catalogues, the evaluator and the
-- drift report.
pub mod Verdicts
pub mod Cisco
pub mod Neutral
pub mod Catalogues
pub mod Engine
pub mod Drift
pub mod Tests
