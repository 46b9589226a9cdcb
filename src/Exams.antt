-- ===== src/Exams.antt =====
-- The exams of a lecture: their questions, grades, clinics and statistics.
pub mod Database
pub mod Repo
pub mod Access
pub mod Clinics
pub mod Editing
pub mod Statistics
pub mod Samples
pub mod Tests
