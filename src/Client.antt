-- ===== src/Client.antt =====
-- agent/client: the client's side of the agent's requests.
pub mod Agent
pub mod Files
pub mod Shell
mod Tests
