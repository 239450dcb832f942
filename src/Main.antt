-- ===== src/Main.antt =====
-- src/main.rs: the options of the service and their checks, the sources that they choose, and the main
-- loop, split into the rate that it derives, the judgement of that rate, and its submission.
pub mod Options
pub mod Cycle
pub mod Start
pub mod Tests
