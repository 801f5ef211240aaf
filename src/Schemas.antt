-- ===== src/Schemas.antt =====
-- libs/schemas: the events of the bus and the enumerations in them. The envelope of an event (its own
-- id, source, schema version, emission time) and free text (rationales, error details) are left out;
-- a correlation id is a field where code reads it. An id (UUID) is a number. Instants are seconds.
mod Enums
mod Market
mod Trading
mod Portfolio
mod Bus
unfoldable pub use Enums.*
unfoldable pub use Market.*
unfoldable pub use Trading.*
unfoldable pub use Portfolio.*
unfoldable pub use Bus.*
