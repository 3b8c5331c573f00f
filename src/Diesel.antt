-- ===== src/Diesel.antt =====
-- deque-loader/src/diesel: the errors of diesel loaders, and their handler.
pub mod Answer
pub mod Error
pub mod Loader
