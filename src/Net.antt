-- ===== src/Net.antt =====
-- src/block_epoll_net.cpp and include/block_epoll_net.h: the frames on a socket and the event
-- structure of a connection.
pub mod Frame
pub mod Event
pub mod Loop
mod Tests
