-- ===== src/Tests.antt =====
-- Runs on small inputs, and the theorems at such inputs.
mod Data
mod Matches
mod Languages
mod Lists
mod Runs
mod Passes
mod Names
mod Settings
mod Judging
mod Judged
mod Pages
mod Whole
