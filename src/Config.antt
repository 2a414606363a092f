-- ===== src/Config.antt =====
-- internal/config: the configuration document, its defaults, its checks and its loading.
pub mod Types
pub mod Defaults
pub mod Validate
pub mod Tags
pub mod Load
pub mod Yaml
