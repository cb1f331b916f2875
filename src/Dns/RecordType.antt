-- ===== src/Dns/RecordType.antt =====
-- The record types that the source names.
use ferrumdns.Base.{ℕ}

abbrev pub a : ℕ
a = 1

abbrev pub ns : ℕ
ns = 2

abbrev pub cname : ℕ
cname = 5

abbrev pub soa : ℕ
soa = 6

abbrev pub ptr : ℕ
ptr = 12

abbrev pub mx : ℕ
mx = 15

abbrev pub txt : ℕ
txt = 16

abbrev pub aaaa : ℕ
aaaa = 28

abbrev pub srv : ℕ
srv = 33

abbrev pub opt : ℕ
opt = 41

abbrev pub svcb : ℕ
svcb = 64

abbrev pub https : ℕ
https = 65

abbrev pub any : ℕ
any = 255
