-- ===== src/Agent.antt =====
-- internal/agent: the tools, the extraction of the reply's JSON object, and the processing of one
-- event from the prompt to the decision record.
pub mod Tools
pub mod Extract
pub mod Prompt
pub mod Process
