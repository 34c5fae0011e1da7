-- ===== src/Verdict.antt =====
-- Cjudger/config.h: the verdicts, languages and limits of the judger.
use run_server.Base.{ℕ}

abbrev pub judge_pd : ℕ
judge_pd = 0

abbrev pub judge_ac : ℕ
judge_ac = 3

abbrev pub judge_re : ℕ
judge_re = 4

abbrev pub judge_wa : ℕ
judge_wa = 5

abbrev pub judge_tle : ℕ
judge_tle = 6

abbrev pub judge_mle : ℕ
judge_mle = 7

abbrev pub judge_ole : ℕ
judge_ole = 8

abbrev pub judge_pe : ℕ
judge_pe = 9

abbrev pub judge_na : ℕ
judge_na = 10

abbrev pub lang_c : ℕ
lang_c = 1

abbrev pub lang_cc : ℕ
lang_cc = 2

abbrev pub lang_java : ℕ
lang_java = 3

abbrev pub std_mb : ℕ
std_mb = 1048576
