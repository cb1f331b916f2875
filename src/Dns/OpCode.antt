-- ===== src/Dns/OpCode.antt =====
-- The op code that the source names.
use ferrumdns.Base.{ℕ}

abbrev pub query : ℕ
query = 0
