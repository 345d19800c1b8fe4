-- ===== src/Runtime.antt =====
-- The threads of the program: the task loop of the main thread and its task runner.
pub mod TaskLoop
pub mod WinTaskRunners
pub mod PosixTaskRunner
mod RuntimeTests
mod WinRunnerTests
