-- ===== src/Schema.antt =====
-- The rows of the database tables that the modelled services read and write (db/*.sql), and the
-- records that the services keep in memory. Amounts are in base units, times in milliseconds.
mod People
mod Money
mod Payments
mod Merchants
use tende.Base.{◌*◌}
pub use People.*
pub use Money.*
pub use Payments.*
pub use Merchants.*
