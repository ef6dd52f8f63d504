-- ===== src/Small.antt =====
-- The small programs: the start of a server that three of them share, pthreadServer/tserver.c,
-- chat/client.c, OOB/server.c, UN/server.c, the server of 服务器和客户端(1V1)/, the clients of
-- the small servers, libevent-server.cpp and Test_memcached/test_mem.c.
pub mod Reads
pub mod StartUp
pub mod Threads
pub mod Client
pub mod Urgent
pub mod Local
pub mod Talkers
pub mod Pair
pub mod Events
pub mod Cache
