-- ===== src/Runtime.antt =====
-- services/agents/common: context.py and base_agent.py, and the consumer of libs/kafka_client.
pub mod Context
pub mod Agent
pub mod Lifecycle
pub mod Shutdown
pub mod Buffers
pub mod Silence
mod Tests
