-- ===== src/Agent.antt =====
-- lib/agent.js: the agent that loads the plugins, wires them together, and closes and starts its
-- inputs on alarms.
pub mod Alarm
pub mod Pipeline
pub mod Close
pub mod Configure
pub mod Delivery
pub mod Start
