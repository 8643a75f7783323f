-- ===== src/Policy.antt =====
-- src/testudo/runtime/policy.py: the validators of the storage and network policies. A declaration is
-- given in its fields' types: pydantic's conversions come before.
pub mod Path
pub mod Contained
pub mod Storage
pub mod Host
pub mod Network
pub mod Egress
mod Examples
