-- ===== src/Normalizer.antt =====
-- The parsers of device configurations (backend/normalizer): what they share, from
-- backend/normalizer/cisco_ios.py and schema.py. A statement that a parser understands is a setting:
-- a field of the schema with a value of its type.
pub mod Lines
pub mod Settings
pub mod Cisco
pub mod Generic
pub mod Junos
pub mod Fortios
pub mod Tests
