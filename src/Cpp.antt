-- ===== src/Cpp.antt =====
-- The C++ classes of code/logic/fossil/network/*.h, each over the C calls of its component.
pub mod Owner
pub mod Client
pub mod Server
pub mod Request
pub mod Socket
mod Tests
