-- ===== src/Token.antt =====
-- sim/sim_2_89/token.h: the numbers of the tokens, and the tests on them.
use run_server.Base.{ℕ, ◌^◌, Bool, ltb, ◌==◌}

abbrev pub n_tokens : ℕ
n_tokens = 2 ^ 16

abbrev pub n_regular_tokens : ℕ
n_regular_tokens = 2 ^ 9

abbrev pub no_token : ℕ
no_token = 0

abbrev pub end_of_line : ℕ
end_of_line = 0xffff

abbrev pub token_eq : ℕ → ℕ → Bool
token_eq t1 t2 = t1 == t2

abbrev pub is_regular_token : ℕ → Bool
is_regular_token tk = ltb tk n_regular_tokens
