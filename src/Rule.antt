-- ===== src/Rule.antt =====
-- service/base/rule: the rule tree, its evaluator and its compiler.
pub mod Value
pub mod Window
pub mod Node
pub mod Outcome
pub mod Context
pub mod Operator
pub mod Evaluate
pub mod Compile
pub mod Agreement
pub mod Keys
pub mod Validate
pub mod Strategy
pub mod Repository
