-- ===== src/Executor.antt =====
-- The executors, internal/executor: the sandboxed one and the one that asks a language model.
pub mod ClaudeCode
pub mod Llm
