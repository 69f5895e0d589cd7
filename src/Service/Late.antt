-- ===== src/Service/Late.antt =====
-- A report whose run another client has updated since it was loaded.
use duragraph.Run.{Run}
