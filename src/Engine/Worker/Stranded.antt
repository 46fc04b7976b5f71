-- ===== src/Engine/Worker/Stranded.antt =====
-- What becomes of a task whose completion the database refuses.
use ai_coworker.Engine.World.{World}
