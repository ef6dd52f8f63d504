-- ===== src/Lib.antt =====
-- A verification library for the C and C++ programs of this repository.
--
-- The parts, and the files that model them:
--
-- http/httpd.c, http/main.c, http/httpd.h: a web server. Httpd/Socket is a connected socket as a
--   list of arrivals (bytes and failed calls of `recv`) and the bytes sent, with a small state
--   monad. Httpd/Line is `get_line` and `clean_hander`, Httpd/Request the parsing in `HandleSock`,
--   Httpd/Host the file system and the programs as a parameter, Httpd/Reply `echo_code` and
--   `echo_html`, Httpd/Cgi `excu_cgi`, Httpd/Handle `HandleSock` as a whole, Httpd/Log `PrintLog`,
--   Httpd/Server `StartUp` and the accept loop of `main`. Handle calls Request, Reply and Cgi, and
--   all of them read by Line.
-- http/wwwroot/cgi/cgi_add.c: CgiAdd, a program that the web server runs. CgiAdd/Sum runs it in
--   the environment that Httpd/Cgi makes.
-- Thread_pool/thread_pool.c and thread_pool.h: Pool. Pool/Tasks is the linked list on a heap,
--   Pool/Worker has one function for each region that a thread runs under the mutex
--   (`thread_routine`, `threadPool_addtask`, `threadPool_destroy`), Pool/System lets workers and
--   owner interleave in any order, with wake-ups for any reason and failed thread creations.
--   Pool/Counts, Pool/Invariant and Pool/Reachable hold the invariant and its consequences, and
--   Pool/Refine compares the pool with the queue of Fifo. Pool/Calm and Calm/Finish are about runs
--   in which no wait times out. Pool/Condition is condition.c.
-- NetWorkSniffer/main.c, Show_Packet.c, sniffer.h: Sniffer. Sniffer/Dump is `PrintData`,
--   Sniffer/Fields the fields of the headers, Sniffer/Show the functions that write a packet,
--   Sniffer/Process `ProcessPacket`, Sniffer/Session the `select` loop and the commands.
-- chat/server.c: Chat. Chat/Mask is the event masks of `poll` bit by bit, Chat/Buffer the message
--   buffer that all users share, Chat/Server one round of the inner loop for each event, Chat/Poll
--   the loops. Chat/Ensures, Chat/Rounds, Chat/Limits and Chat/Ends hold the proofs.
-- epoll_server.c: Epoll, one round of the event loop with its buffers on a heap; Epoll/Main the
--   first registration, `epoll_wait` and the loops; Epoll/Sharing is about the pointer that all
--   clients share, Epoll/Alive and Epoll/Stay about the buffers that are there.
-- LinuxChat/: LinuxChat. LinuxChat/Ring is `class Pool` of pool/pool.cpp, a ring under two
--   semaphores; Ring/Threads lets a thread in `PutData` and one in `GetData` interleave, Ring/Held
--   and Ring/Refine compare them with the queue of Fifo, Ring/Calls is about whole calls.
--   LinuxChat/Redis is redis-lib/redis_api.cpp, LinuxChat/Server `class UdpServer` and the rounds of
--   its producer, LinuxChat/Threads the threads and `main` of server/udpServerMain.cpp one by one,
--   LinuxChat/System the two threads on one server in any interleaving: System/Sequential,
--   System/Casting and System/Round compare it with the functions of LinuxChat/Server, System/Order is about the
--   messages, System/Dangling, System/Calls and System/Quit about the iterator of `broadCast` and a
--   user that quits, System/Full about a ring that nobody empties. LinuxChat/Client is the client
--   with its output thread, LinuxChat/Typing its start, its line of input and its header,
--   LinuxChat/Window the frames of window/window.cpp. LinuxChat/Echo goes from the line typed
--   through the server and back. Saved, Users, Broadcast, Deliver and View hold proofs. The server's
--   producer puts into the ring what its broadcast takes out.
-- http/testsql/: StudentSql. StudentSql/Api is `class mysql`, StudentSql/Forms the programs
--   cgi_sql.cpp and cgi_show.cpp, StudentSql/Insert runs the first in the environment that Httpd/Cgi
--   makes. StudentSql/Weather is the two programs as they are in weather/testsql/.
-- MySQL_Test/TestSQL/testsql.c: PetSql, with PetSql/Statements for what it gives to MySQL.
--   TestSQL/testsql.c: PetSql/Show.
-- weather_server/wwwroot/cgi/register.cpp and redis-lib/redis_api.cpp: Weather/Register;
--   Weather/Count is about many registrations, Weather/Race about two programs at once,
--   where a step is one call of RedisApi: Race/Calls is about the steps, Race/Phases and Race/Lost
--   about programs that both read the counter first. weather_show.cpp beside it: Weather/Show;
--   weather/wwwroot/cgi/weather_show.cpp: Weather/Push.
-- pthreadServer/tserver.c, chat/client.c, OOB/server.c, UN/server.c: Small, with a file for each,
--   and Small/StartUp for the start of a server. 服务器和客户端(1V1)/server.c: Small/Pair. Its client and
--   those of pthreadServer/, OOB/ and UN/: Small/Talkers. libevent-server.cpp: Small/Events.
--   Test_memcached/test_mem.c: Small/Cache.
-- Fifo is the queue that the two queues of the programs refine.
--
-- Base holds what they share: Boolean tests, lists and integers over the native numbers, C
-- strings, `atoi` and decimal output. Tests holds a concrete run for the results.
--
-- Bytes are numbers. A C string is a list of bytes, an array a list whose length is the array's.
-- An int keeps its 32 bits where the source adds. A loop that the source does not bound has fuel:
-- in `get_line` each round takes a unit, and more fuel than bytes have arrived is enough, since a
-- round at the end of the input changes nothing. `none` is then a run that does not return. The
-- loop over the slots in Chat/Poll has 18 rounds of fuel, enough for six slots and five users. In
-- Chat, Pool, Epoll and CgiAdd `none` or `faults` is an access outside an array or through a bad
-- pointer; in Chat it is also a hang-up of the listening socket while there is no user.
--
-- Parameters: the files, the programs that can be executed, the results of system calls. A program
-- run by `excu_cgi` is a function of its environment and of the bytes that are forwarded to it, so
-- one that waits for the end of its input is not in the model. Tasks of the thread pool have no
-- effect on the pool, and memory for a task is always given. jsoncpp, hiredis with the redis
-- server, libmemcached and the client library of MySQL are records of functions; what redis
-- documents of its commands is the record Keeps in LinuxChat/Redis and Weather/Register, and what
-- jsoncpp documents of its writer and reader the record Reads in LinuxChat/Echo. The calls of
-- pthread in condition.c are a record too.
--
-- Not modelled: terminal output; the files of weather/ and weather_server/ that are copies of
-- those of http/ or of each other; LinuxChat/Json, which only calls jsoncpp; the test program at
-- the end of thread_pool.c. In LinuxChat/System a run ends where the producer is lost, and the
-- threads of the client are not composed.
pub mod Base
pub mod Httpd
pub mod Pool
pub mod Sniffer
pub mod Chat
pub mod CgiAdd
pub mod Epoll
pub mod Small
pub mod Fifo
pub mod LinuxChat
pub mod StudentSql
pub mod PetSql
pub mod Weather
pub mod Tests
