-- ===== src/Normalizer/Junos.antt =====
-- The parser of JunOS configurations (backend/normalizer/juniper_junos.py): the lines of nested
-- blocks and of `set` commands become statements, and a statement is read by its words.
pub mod Blocks
pub mod Meaning
pub mod Parse
pub mod Nesting
pub mod Repairs
pub mod Tests
