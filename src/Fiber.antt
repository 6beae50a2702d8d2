-- ===== src/Fiber.antt =====
-- src/fiber.rs: the sockets of fibers (Fiber.Sock) and what the runner keeps of a fiber
-- (Fiber.Int). The calls of mio and native_tls are parameters (Fiber.Net).
pub mod Net
pub mod Sock
pub mod Int
pub mod Repeat
