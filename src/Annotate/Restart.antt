-- ===== src/Annotate/Restart.antt =====
-- Crashes and restarts on the timeline (src/tester1/annotation.go).
use mit_6_5840_distributed_s.Base.{string_eq}
