-- ===== src/Audit.antt =====
-- src/vyuu_gateway/audit/spool.py and audit/emitter.py: the local spool of audit events and the
-- emitters that use it. Events and their JSON texts are parameters; a text is a list of code points.
pub mod Lines
pub mod Spool
pub mod Emitter
mod Examples
