-- ===== src/Normalizer/Cisco.antt =====
-- The parser of Cisco IOS configurations (backend/normalizer/cisco_ios.py): a line is read to a
-- statement, in the order in which `parse` tries them, and the statement is carried out. The
-- result is the one that the audit stores. The JSON text of a value and the lookup of a learned
-- mapping are parameters.
pub mod Globals
pub mod Statements
pub mod Parse
pub mod Traces
pub mod Repairs
