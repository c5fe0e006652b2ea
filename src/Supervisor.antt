-- ===== src/Supervisor.antt =====
-- pkg/supervisor: the processes of the nodes and of the simulator, and the server in front of them
pub mod Buffer
pub mod Manager
pub mod Simulator
pub mod Server
pub mod Proxy
