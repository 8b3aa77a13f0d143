-- ===== src/Tests.antt =====
-- Concrete runs of the definitions, and the theorems at concrete inputs.
mod Packets
mod Sessions
mod Records
mod Approvals
mod Miracast
mod Responder
mod Streaming
mod Casting
mod Renderer
