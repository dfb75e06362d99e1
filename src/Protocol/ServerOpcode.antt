-- ===== src/Protocol/ServerOpcode.antt =====
-- common/protocol_constants.h: `ServerOpcode`.
use argentum_online_taller_g.Prelude.{ℕ}

abbrev pub login_ok : ℕ
login_ok = 129

abbrev pub match_list : ℕ
match_list = 130

abbrev pub match_created : ℕ
match_created = 131

abbrev pub match_joined : ℕ
match_joined = 132

abbrev pub snapshot : ℕ
snapshot = 133

abbrev pub player_joined : ℕ
player_joined = 134

abbrev pub player_left : ℕ
player_left = 135

abbrev pub player_spawned : ℕ
player_spawned = 136

abbrev pub world_map : ℕ
world_map = 137

abbrev pub moved : ℕ
moved = 144

abbrev pub stats : ℕ
stats = 145

abbrev pub death : ℕ
death = 146

abbrev pub revive : ℕ
revive = 147

abbrev pub attacked : ℕ
attacked = 148

abbrev pub meditate : ℕ
meditate = 149

abbrev pub inventory : ℕ
inventory = 160

abbrev pub catalog : ℕ
catalog = 161

abbrev pub npc_interact : ℕ
npc_interact = 162

abbrev pub chat_msg : ℕ
chat_msg = 176

abbrev pub system_msg : ℕ
system_msg = 177

abbrev pub clan_result : ℕ
clan_result = 192

abbrev pub clan_review : ℕ
clan_review = 193

abbrev pub error : ℕ
error = 238
