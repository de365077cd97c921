-- ===== src/Component.antt =====
-- lib/lib/base_component.js: what every input, filter and output shares. The children model the
-- parts of the class.
pub mod Filtering
pub mod Template
pub mod Config
pub mod Reading
pub mod Tags
