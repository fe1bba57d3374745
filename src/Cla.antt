-- ===== src/Cla.antt =====
-- pkg/cla: the manager of the convergence layers.
pub mod Manager
pub mod Tests
