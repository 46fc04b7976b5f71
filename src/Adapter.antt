-- ===== src/Adapter.antt =====
-- The adapters of the channels, internal/adapter/github, internal/adapter/slack and
-- internal/adapter/googledocs. The clients of the services are outside: what they return is an argument.
mod Tests
pub mod Mention
pub mod GitHub
pub mod Slack
pub mod GoogleDocs
