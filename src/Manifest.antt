-- ===== src/Manifest.antt =====
-- manifest/manifest.go: a domain is read from a manifest file. manifest/validate.go: the checks of such
-- a file, with the graphs of its steps and of its workflows.
pub mod Specs
pub mod Steps
pub mod Load
pub mod FindCycle
pub mod Reach
pub mod Validate
pub mod Graph
pub mod ValidateFile
pub mod Report
