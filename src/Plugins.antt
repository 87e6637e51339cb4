-- ===== src/Plugins.antt =====
-- The plugins of plugins/: what they do for each sample.
pub mod Notifier
pub mod Cluster
pub mod CleanUp
pub mod Sources
pub mod VolumeTagger
pub mod Tags
