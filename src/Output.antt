-- ===== src/Output.antt =====
-- internal/output: what the program makes of the assessments that a scan returns.
pub mod Evaluator
pub mod Gemara
pub mod References
pub mod Results
pub mod Serializable
pub mod Summary
