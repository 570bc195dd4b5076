-- ===== src/Lib.antt =====
-- ValSec: an operator pulls the configuration of a network device, audits it against a control
-- catalogue, and remediates what fails. This library models the deterministic core of the backend.
--
-- How the parts interact: a configuration is normalized to the vendor-neutral schema, the engine
-- evaluates a catalogue on it to a report, the remediation service turns a failing result into a
-- text, an operator approves the text, and a connector applies it. A network mission walks from a
-- seed device to its neighbours, and dispatches a pull for each device that it may reach.
--
-- Which file models which part (paths from the root of the repository):
--   Prelude      shared list, text, dictionary and result helpers
--   Errors       the exceptions that cross component boundaries
--   Schema       backend/normalizer/schema.py
--   Normalizer   backend/normalizer: Lines, Settings (schema.py), Cisco (cisco_ios.py), Junos
--                (juniper_junos.py), Fortios (fortios.py), Generic (generic.py)
--   Compliance   backend/compliance: Verdicts, Cisco (cis_cisco_ios.py), Neutral and Catalogues
--                (catalogues.py), Engine (engine.py), Drift (drift.py)
--   Remediation  backend/remediation: Templates (cisco_, fortios_ and juniper_remediation.py),
--                Service (service.py), Execution (execution.py); Risk is
--                backend/connectors/risk_classifier.py
--   Mission      Types (backend/models.py, backend/network_mission_service.py and
--                backend/device_registry.py), Discovery and Run (run_network_mission of
--                backend/tasks/network_missions.py), Campaign (execute_campaign_target and
--                finalize_remediation_campaign of the same file, and campaign_rollup), Collect
--                (collect_mission_device), Review (finalize_network_mission), Summary
--                (mission_summary of backend/network_mission_service.py), Routes
--                (backend/routers/network_missions.py)
--   Pull         backend/device_pull_service.py
--   Schedule     backend/tasks/scheduled_audits.py
--   Target       backend/connectors/target_guard.py
--   Audit        backend/tasks/audit_orchestrator.py
--   Training     backend/training/matcher.py and backend/routers/training.py
--   Push         backend/connectors/ssh_push.py
--   Access       backend/organization_access.py and backend/device_ownership.py
--   Security     backend/security.py: one-time codes, rate limits and sessions
--
-- Correspondence: a dataclass or a table row is a record with the source's field names, an enum is
-- a data type with its members, a function keeps its name. A mutation of a row is a function to
-- the new row; a task is a function from the tables it reads to those it leaves. An exception is a
-- value of `Result`. A score is a natural number of hundredths of a per cent, which
-- `round(..., 2)` prints with two decimals. A float in the schema is a quotient of natural numbers.
--
-- Parameters: the SSH pull and the SSH channel (of missions the push too; Push models it), the
-- target guard of missions and pulls (Target models it), the resolver and the address parser that
-- it asks, the splitting of shlex, the reading of a float and the JSON text of a value, hashes and
-- random tokens, the credential vault, the local model, the task queue, the clock, and the printing
-- of floats. The parsers are given the lookup of a learned mapping, with the setting that it makes,
-- if the schema has its field; Training models the lookup.
--
-- Fuel: the traversal of a mission pops one queue entry per round. An address is seen once and at
-- most max_devices + 1 are, so max_devices + 2 rounds are enough, which is proved.
-- A polling task is given its number of retries and their limit, and its theorem is about the call
-- in which they are used up.
--
-- Patterns: a regular expression of a parser is a function on the words or the characters of a
-- stripped line, written beside the pattern that it stands for.
--
-- Not modelled: the details of events and log lines, most HTTP routes and the database sessions
-- (transactions are taken to commit where the code commits), PDF reports, e-mail, encryption, and
-- the front end. A key of Redis that has run out is absent; the time to live of a session or a
-- code is not counted. A scheduled audit may be retried without a limit on the number of retries,
-- and the database's unique constraint on a mission and an address is left out, since the
-- traversal keeps the addresses that it has seen. Text is case folded, classified and stripped by
-- the ASCII characters only.
pub mod Prelude
pub mod Errors
pub mod Schema
pub mod Access
pub mod Audit
pub mod Compliance
pub mod Mission
pub mod Normalizer
pub mod Pull
pub mod Push
pub mod Remediation
pub mod Schedule
pub mod Security
pub mod Target
pub mod Training
