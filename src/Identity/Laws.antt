-- ===== src/Identity/Laws.antt =====
-- What the endpoints of system/api/src/identity store and answer.
use digital_identity_system.Identity.{Identity}
