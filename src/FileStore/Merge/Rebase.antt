-- ===== src/FileStore/Merge/Rebase.antt =====
-- Two transactions of one linear history are reported as a fork if both claim one version of a
-- stream, which happens when the first has declared the stream without writing to it.
use eventcore.Prelude.{List}
