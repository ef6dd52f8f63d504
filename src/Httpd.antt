-- ===== src/Httpd.antt =====
-- http/httpd.c and http/main.c: a small web server, one thread for a connection.
pub mod Socket
pub mod Line
pub mod Request
pub mod Host
pub mod Reply
pub mod Cgi
pub mod Handle
pub mod Log
pub mod Server
