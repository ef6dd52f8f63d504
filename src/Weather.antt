-- ===== src/Weather.antt =====
-- The CGI programs of weather_server/wwwroot/cgi/: register.cpp with its redis-lib/redis_api.cpp, and
-- weather_show.cpp.
pub mod Register
pub mod Keys
pub mod Count
pub mod Show
pub mod Push
pub mod Race
