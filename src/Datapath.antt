-- ===== src/Datapath.antt =====
-- The rules that the agent installs: pkg/agent/datapath. Rules is the database of rules of
-- multiBridgeDatapath.go, Bridge the tables of policyBridge.go and what they accept, Rounds the numbers
-- of restarts.
pub mod Bridge
pub mod Rounds
pub mod Rules
