-- ===== src/Go.antt =====
-- What the program uses of Go itself and of its standard library.
pub mod Error
pub mod Exec
pub mod Steps
pub mod Text
pub mod Filepath
pub mod Strconv
pub mod Mutex
