-- ===== src/Examples.antt =====
-- Concrete runs of the daemon: the theorems at one input each.
mod World
mod Filtered
mod Deleting
mod Requests
mod Reconcile
mod Runs
mod Changes
mod Start
mod Interleavings
mod Factories
mod Copying
mod Names
mod Attaching
mod Joining
mod Configuring
mod Updating
