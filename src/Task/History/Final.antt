-- ===== src/Task/History/Final.antt =====
-- What holds of a task whatever commands it is given, and in whatever order.
