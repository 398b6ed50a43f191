-- ===== src/Grpc.antt =====
-- The gRPC wire: what is under src/grpc.
pub mod Protobuf
pub mod Framing
pub mod Messages
mod Tests
