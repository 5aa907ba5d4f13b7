-- ===== src/CommitLog/Log/Refinement/Shortening.antt =====
-- Truncate on a log that stands for a list of records.
use distributed_systems_trai.CommitLog.Log.{Log}
