-- ===== src/Dns/Rcode.antt =====
-- The response codes that the source names.
use ferrumdns.Base.{ℕ}

abbrev pub no_error : ℕ
no_error = 0

abbrev pub form_err : ℕ
form_err = 1

abbrev pub serv_fail : ℕ
serv_fail = 2

abbrev pub nx_domain : ℕ
nx_domain = 3

abbrev pub not_imp : ℕ
not_imp = 4

abbrev pub refused : ℕ
refused = 5
