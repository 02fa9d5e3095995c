-- ===== src/Policy.antt =====
-- internal/policy: the graph of a policy, its assessments by evaluator, and what is generated.
pub mod Graph
pub mod Groups
pub mod Generation
pub mod Freshness
