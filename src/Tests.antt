-- ===== src/Tests.antt =====
-- Runs of the model on concrete inputs, and the theorems at inputs that meet their hypotheses.
mod Samples
mod Runs
mod Images
mod Commits
mod Cells
mod Exports
mod Faults
mod Tags
mod Demos
mod Decoders
mod Mocks
mod Postmortems
