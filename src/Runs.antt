-- ===== src/Runs.antt =====
-- The theorems at concrete inputs, with the code of other packages instantiated by small functions.
mod Chunks
mod Trees
mod Leaves
mod Dags
mod Partials
mod Packets
mod Batches
mod Serialized
