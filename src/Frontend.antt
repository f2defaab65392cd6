-- ===== src/Frontend.antt =====
-- Rules of the frontend, frontend/app, that do not render anything.
pub mod Wizard
pub mod Status
pub mod Executor
pub mod Funding
pub mod DeployAndFund
pub mod Nim
pub mod Examples
