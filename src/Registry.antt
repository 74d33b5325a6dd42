-- ===== src/Registry.antt =====
-- src/vyuu_gateway/registry/access_requests_service.py and registry/jit_service.py. A function that
-- raises has changed nothing: its caller's transaction is abandoned. A fresh `uuid4()` and the
-- clock's readings are arguments.
pub mod Errors
pub mod Issue
pub mod Requests
pub mod Approvals
pub mod Jit
pub mod Effects
pub mod Run
mod Examples
