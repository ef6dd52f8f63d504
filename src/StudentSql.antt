-- ===== src/StudentSql.antt =====
-- http/testsql/: two CGI programs over a MySQL table, and the class that they share.
pub mod Api
pub mod Forms
pub mod Insert
pub mod Weather
