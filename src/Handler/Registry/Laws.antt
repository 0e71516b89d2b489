-- ===== src/Handler/Registry/Laws.antt =====
-- What a registry answers after a registration, and what the default one holds.
use filum_reforge.Value.{Value}
use filum_reforge.Handler.Defs.{Handler}
