-- ===== src/Compact/Run/Kept.antt =====
-- What a compaction writes: of each user key the newest version, unless that is a tombstone that may
-- be dropped.
use jadedb.Common.BTreeMap
use jadedb.Options.{Options}
use jadedb.Compact.Run.Tables.{Tables}
