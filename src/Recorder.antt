-- ===== src/Recorder.antt =====
-- services/data_ingestion/recorder.py.
mod Defs
unfoldable pub use Defs.*
pub mod Flush
mod Tests
