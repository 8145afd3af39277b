-- ===== src/Protocol.antt =====
-- The two sides of the messenger together: project2/gui_client.c against project2/gui_server.c.
mod Tests
pub mod Requests
pub mod Login
pub mod SignUp
pub mod Chat
pub mod Rooms
pub mod Conversation
pub mod Files
pub mod Moving
