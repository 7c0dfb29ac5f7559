-- ===== src/Tests.antt =====
-- Runs of the modelled code at fixed inputs, and the theorems at concrete inputs.
mod Values
mod Scopes
mod Keyrings
mod Documents
mod Records
mod Json
mod Journals
mod Vaults
mod Gates
mod Searches
mod Calls
mod Desktops
mod Clouds
mod RepoKeys
mod Workers
mod Wraps
mod Keys
