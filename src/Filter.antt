-- ===== src/Filter.antt =====
-- filter/: the filter language.
pub mod Kind
pub mod Lexer
pub mod Floats
pub mod Syntax
pub mod Outcome
pub mod Parser
pub mod Statements
pub mod Value
pub mod Evaluation
pub mod Library
pub mod Strings
pub mod Methods
pub mod Collections
pub mod Context
pub mod Eval
pub mod Examples
mod Tests
