-- ===== src/Input.antt =====
-- lib/lib/base_input.js and lib/lib/base_output.js, and the inputs of lib/inputs.
pub mod Files
pub mod Gae
pub mod Redis
pub mod Serial
