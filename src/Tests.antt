-- ===== src/Tests.antt =====
-- Runs of the model on concrete inputs, and the theorems at inputs that meet their hypotheses.
mod Snapshots
mod Rates
mod Samples
mod Registries
mod Graphites
mod Executors
mod Consoles
mod Pools
mod Reporters
mod Racing
mod Averages
mod Clocks
