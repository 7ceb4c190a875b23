-- ===== src/Tests.antt =====
-- Runs of the definitions on concrete inputs, and the theorems at inputs where they apply.
mod Db
mod Sql
mod Analyser
mod Executers
mod Queue
mod Web
mod Github
mod Startup
mod System
