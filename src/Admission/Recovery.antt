-- ===== src/Admission/Recovery.antt =====
-- An approval whose save of the tenant fails, and a second approval.
use duragraph.User
use duragraph.User.Storage
use duragraph.Tenant.{Tenant}
