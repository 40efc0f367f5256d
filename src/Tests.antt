-- ===== src/Tests.antt =====
-- Runs of the model on concrete data, and the theorems at inputs that meet their hypotheses.
mod Memory
mod Api
mod Stores
mod Graphs
mod Reads
mod Sessions
mod Search
mod Configs
mod Histories
mod Paths
mod Streams
mod Summaries
mod Impacts
mod Reopen
