-- ===== src/Execution.antt =====
-- The execution of signals: kimp_arb_cpp/include/kimp/execution and kimp_arb_cpp/src/execution.
pub mod OrderManager
pub mod Lifecycle
