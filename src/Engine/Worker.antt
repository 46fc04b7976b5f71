-- ===== src/Engine/Worker.antt =====
-- The worker pool, internal/engine/worker.go: how one claimed task is processed, and the loop of a
-- worker. An executor is outside: it answers by the step at which it is started.
pub mod Respond
pub mod Process
pub mod Loop
pub mod Rely
pub mod Safety
pub mod Guarantee
pub mod Contract
pub mod Stranded
pub mod Clock
pub mod Stops
pub mod Finish
