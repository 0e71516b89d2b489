-- ===== src/Chain/Trigger/Once.antt =====
-- A run starts the next template at most once, and never one that its chain went through.
use filum_reforge.Value.{Value}
