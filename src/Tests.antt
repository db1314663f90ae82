-- ===== src/Tests.antt =====
-- Runs on concrete inputs: the data that they share, and one module for each part of the program.
mod Data
mod Steps
mod Waiting
mod Resolved
mod Joins
mod Library
mod Manifests
mod Validation
mod Recordings
mod Diffs
mod Catalogs
mod Routes
mod Drafts
mod Disks
mod Folders
mod Serving
mod Boards
