-- ===== src/Staticlint.antt =====
-- cmd/staticlint: the list of the analyzers, and the analyzer of its own.
pub mod Osexitcheck
pub mod Analysers
