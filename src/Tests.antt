-- ===== src/Tests.antt =====
-- Tests of the models on concrete inputs, and instances of the theorems.
mod Fixtures
mod Storage
mod Files
mod Service
mod Config
mod Sessions
mod Servers
mod Database
mod Gobs
mod Deletions
mod Program
mod Analyzer
mod Requests
mod Routers
mod Accounts
mod Suites
mod Certificates
mod Journeys
mod Overflows
mod Postgres
mod Tables
