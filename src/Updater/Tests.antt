-- ===== src/Updater/Tests.antt =====
-- Bulk runs of two hosts, and the theorems at them.
mod Fixtures
mod Waves
mod Rollouts
mod Starts
mod Hosts
mod Requests
