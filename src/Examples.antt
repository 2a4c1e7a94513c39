-- ===== src/Examples.antt =====
-- Concrete inputs at which the theorems apply.
mod Guards
mod Calls
mod Hooks
mod Access
mod Units
mod Staff
mod Claims
mod Settings
mod Requests
mod Notices
mod Messages
