-- ===== src/Examples.antt =====
-- The theorems at concrete inputs.
pub mod Lists
pub mod Tables
pub mod Sessions
pub mod Pages
pub mod Caches
pub mod Uploads
pub mod Guards
pub mod Fields
pub mod Forms
pub mod Screens
pub mod Views
pub mod Images
pub mod Accepted
