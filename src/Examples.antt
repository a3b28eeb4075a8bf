-- ===== src/Examples.antt =====
-- The theorems at concrete inputs: the sample values in `Data`, and one file for each part.
mod Data
mod Matching
mod Scheduling
mod Placing
mod Tables
mod Pooling
mod Planning
mod Working
