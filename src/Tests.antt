-- ===== src/Tests.antt =====
-- Runs of the code on concrete inputs, and the theorems at inputs that meet their hypotheses.
mod Instances
mod Codec
mod Keys
mod Tasks
