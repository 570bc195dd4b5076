-- ===== src/Normalizer/Fortios.antt =====
-- The parser of FortiOS configurations (backend/normalizer/fortios.py): `config` blocks and their
-- `edit` records on a stack, and the `set` commands inside them. How `shlex` splits a line, what
-- `float` reads and how a list prints are parameters.
pub mod Policies
pub mod Commands
pub mod Acts
pub mod Parse
pub mod Access
pub mod Visible
pub mod Tests
