-- ===== src/Examples.antt =====
-- The theorems and the definitions at concrete inputs.
mod OnWire
mod OnSlots
mod OnCommands
mod OnTopologies
mod OnTransactions
mod OnPools
mod OnConfigs
mod OnRouters
mod OnSessions
mod OnKeys
mod OnChannels
