-- ===== src/Startup.antt =====
-- How the program starts and ends: the files and directories of util.cpp, the options of option.hpp,
-- listener.cpp and main.cpp.
pub mod Files
pub mod Prepared
pub mod Parameters
pub mod Restart
pub mod Options
pub mod Precedence
pub mod Accepting
pub mod Served
pub mod Process
pub mod Saving
pub mod Resumed
pub mod Ended
pub mod Environment
