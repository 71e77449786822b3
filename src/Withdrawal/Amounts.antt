-- ===== src/Withdrawal/Amounts.antt =====
-- What a preparation that succeeds has fixed.
use tende.Base.{◌>>=◌}
use tende.World.{World}
use tende.World.Returns.{Returns}
use tende.Env.{Env}
use tende.Withdrawal.Prepare.{Prepared}
