-- ===== src/Ae.antt =====
-- ae.hpp, ae.cpp and ae_epoll.hpp: the event loop over epoll.
pub mod Types
pub mod Epoll
pub mod Create
pub mod Files
pub mod Times
pub mod Resize
pub mod Process
mod Tests
