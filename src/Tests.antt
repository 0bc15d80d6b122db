-- ===== src/Tests.antt =====
-- The properties at concrete inputs, over services that are lists in memory.
mod Memory
mod Json
mod Messaging
mod DeadLetters
mod Services
mod Agent
mod Worker
mod Rest
mod Routes
mod Llm
mod Graphql
mod Loops
mod Seed
mod Startup
mod Running
mod Concurrent
mod Pipeline
