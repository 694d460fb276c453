-- ===== src/Demo.antt =====
-- The programs under examples/, on top of the library.
pub mod Uart
pub mod Delay
pub mod Stm32
pub mod Generic
pub mod Startup
pub mod Vectors
