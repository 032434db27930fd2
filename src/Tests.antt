-- ===== src/Tests.antt =====
-- Runs of the definitions at concrete inputs, and each hypothetical theorem at an input that meets
-- its hypotheses.
mod Paths
mod Policy
mod Store
mod Api
mod Proxy
mod Crypto
mod Ui
mod Cli
mod Clients
mod Startup
