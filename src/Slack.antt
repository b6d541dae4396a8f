-- ===== src/Slack.antt =====
-- brightbean-studio/apps/slack_bot: who may use the analytics bot, how access is given, and the
-- loop in which a language model calls the analytics tools.
pub mod Directory
pub mod Authorization
pub mod Access
pub mod Provisioning
pub mod Llm
pub mod Tools
pub mod Orchestrator
pub mod Examples
