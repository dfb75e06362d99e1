-- ===== src/Protocol/ClientOpcode.antt =====
-- common/protocol_constants.h: `ClientOpcode`.
use argentum_online_taller_g.Prelude.{ℕ}

abbrev pub login : ℕ
login = 1

abbrev pub list_matches : ℕ
list_matches = 2

abbrev pub create_match : ℕ
create_match = 3

abbrev pub join_match : ℕ
join_match = 4

abbrev pub select_race_class : ℕ
select_race_class = 5

abbrev pub move : ℕ
move = 16

abbrev pub attack : ℕ
attack = 17

abbrev pub meditate : ℕ
meditate = 18

abbrev pub pick_up : ℕ
pick_up = 19

abbrev pub drop_item : ℕ
drop_item = 20

abbrev pub equip_item : ℕ
equip_item = 21

abbrev pub interact : ℕ
interact = 22

abbrev pub clan : ℕ
clan = 23

abbrev pub resurrect : ℕ
resurrect = 24

abbrev pub cheat : ℕ
cheat = 25

abbrev pub chat : ℕ
chat = 32

abbrev pub private_chat : ℕ
private_chat = 33

abbrev pub leave_match : ℕ
leave_match = 254

abbrev pub disconnect : ℕ
disconnect = 255
