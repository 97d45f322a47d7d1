-- ===== src/Config.antt =====
-- What a tenant may configure: core/app_config.py and core/pipeline_config.py.
pub mod Environment
pub mod Stages
