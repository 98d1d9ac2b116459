-- ===== src/CodingTools.antt =====
-- pkg/codingtools: the tools that an agent's model calls on its files.
pub mod Bash
pub mod Read
pub mod Tests
