-- ===== src/Tests.antt =====
-- A small cloud in memory, and the handlers run on it.
mod Memory
mod Data
mod Disks
mod Pure
mod Handlers
mod Services
mod Staging
mod Sparing
mod Counting
mod Starting
mod Racing
mod Lived
mod Machine
mod Hosting
mod Binder
mod Binding
mod Publishing
