-- ===== src/Sql.antt =====
-- The SQL front end (src/sql).
pub mod Token
pub mod Ast
pub mod Lexer
pub mod Executor
pub mod Parser
mod Tests
