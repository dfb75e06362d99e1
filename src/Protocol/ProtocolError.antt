-- ===== src/Protocol/ProtocolError.antt =====
-- common/protocol_constants.h: `ProtocolError`.
use argentum_online_taller_g.Prelude.{ℕ}

abbrev pub nick_taken : ℕ
nick_taken = 1

abbrev pub match_not_found : ℕ
match_not_found = 2

abbrev pub match_full : ℕ
match_full = 3

abbrev pub command_not_allowed : ℕ
command_not_allowed = 4

abbrev pub invalid_arg : ℕ
invalid_arg = 5
