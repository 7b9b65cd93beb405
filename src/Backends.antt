-- ===== src/Backends.antt =====
-- The sequential backends: controller/container_env_manager.py, controller/criu_env_manager.py,
-- controller/hybrid_env_manager.py and controller/gvisor_env_manager.py.
pub mod Platform
pub mod Host
pub mod Container
pub mod Criu
pub mod Hybrid
pub mod Gvisor
pub mod Firecracker
pub mod Registry
