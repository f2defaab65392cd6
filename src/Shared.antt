-- ===== src/Shared.antt =====
-- packages/shared/src/index.ts: the types and rules that the backend and the frontend share.
pub mod Policy
pub mod Agreement
pub mod Escrow
pub mod Chain
