-- ===== src/Annotate.antt =====
-- src/tester1/annotation.go: the marks on the timeline that the tests draw. `Mark` is porcupine's
-- Annotation, with the fields that the source fills; a field that it leaves out is zero. Every
-- operation runs under the annotation's mutex, and the clock that it reads is an argument.
pub mod Marks
pub mod Fault
pub mod Report
pub mod Flags
pub mod Tiles
pub mod Chain
pub mod Crash
pub mod Restart
pub mod Once
mod Tests
