-- ===== src/Lib.antt =====
-- The game server of Argentum Online: what players carry, own, earn and lose, the characters of
-- the cities, the clans, the world in which players and characters walk and fight, and how clients
-- and server talk.
--
-- A player (server/game/player.cpp over character.cpp) has an inventory (server/game/inventory.cpp)
-- of items (server/game/items), which the registry of items makes from templates under their
-- normalised names (common/string_utils.h). The formulas of server/game/game_formulas.cpp read the
-- settings (server/game/game_config.h). The bank (server/game/bank.cpp) keeps a safe per player.
-- Players ask the characters of the cities (server/game/npcs) to trade, heal and bank. Clans
-- (server/game/clan.cpp) are sets of player ids; the clan commands (server/commands/clan_command.cpp)
-- call the world (server/world/world.cpp), which ties the clans to the players that are online. The
-- world keeps the map (server/world/world_map.cpp), who stands where, what lies on the ground and the
-- characters (server/game/npcs/hostile_npc.cpp), whose behaviour is a part of its tick.
-- Clients and server exchange requests and updates as bytes (server/server_protocol.cpp,
-- client/client_protocol.cpp); a thread per client (server/receiver_thread.cpp) serves the requests
-- on the lobby (server/server.cpp) or hands them to the match that the client is in
-- (server/game/basic_match.cpp).
--
-- - Text: normalize_name. Text.Normal: its normal forms.
-- - Float and Config: the numbers and settings. Item: the item classes as one type.
-- - Registry: the registry of items. Registry.Lookup: what it finds.
-- - Inventory: every operation but equip and use_consumable. Inventory.Valid and Inventory.Adding:
--   when one is in order. Inventory.Stock and Inventory.Removal: how many units of each item it
--   holds.
-- - Player.Character: hit points, mana and meditation. Player.Formulas: maxima and limits.
--   Player.Purse, Player.Experience and Player.Equipment: gold, levels and loot, equipping.
--   Player.Vitals and Player.Wearing: their invariants. Player.Casts: what is worn and its class.
-- - Bank: the safes. Bank.Laws: what an operation does to each of them.
-- - Npc.City: banker, merchant and priest, and CityNPC::interact. Npc.Gold, Npc.Trade and
--   Npc.Refusal: what each request moves, and what a refused one leaves.
-- - Clan: the operations on a clan. Clan.Valid: when a clan is valid. Clan.Standing: a state
--   machine of what each player is to a clan.
-- - World.Clans: the handlers of the clan commands. World.Execute: their execution with the updates
--   that it sends. World.Membership and World.Members: when clans and players are consistent, and
--   what may change. World.Handlers and World.Commands: the handlers on those. World.Overlap: a
--   player of two clans. World.Cities: the city closest to a position.
-- - World.Map: cells, zones and server/world/world_map.cpp. World.Search: the search for a free
--   position. Search.Sound, Search.Fuel and Search.Total: what it finds, and that it ends.
-- - World.State: the fields of the world and who is in it. World.Movement: joining, leaving, walking
--   and teleporting. World.Ground: what lies on the ground. World.Combat and World.Attack: the numbers
--   of a fight, and attack, heal and npc_attack. World.Update: recovery, resurrections and the
--   behaviour of hostile characters. World.Spawning: how characters come, and update. World.Actions:
--   meditation, resurrection, cheats and requests to the characters of a city. World.Play: the
--   commands of server/commands, with the updates that they send.
-- - World.Board: when occupied is right for any pieces. World.Places, World.Walks, World.Arrivals
--   and World.Settled: for the players and characters of a world. World.Quiet, World.Calm,
--   World.Fights and World.Asks: what moves nobody. World.Rounds, World.Spawned and World.Start:
--   ticks, spawning and the empty world. World.Reach: the worlds that play leads to.
-- - Protocol.Updates, Protocol.Requests and Protocol.Commands: what the server tells its clients
--   (common/updates), what they ask of it, and the commands to a match (common/commands).
--   Protocol.Wire: numbers and texts as bytes. Protocol.Sending and Protocol.Receiving:
--   server/server_protocol.cpp and client/client_protocol.cpp for the updates. Protocol.Reads,
--   Protocol.Fits and Protocol.Arrival: an update from the one end to the other. Protocol.Takes:
--   a reader leaves a stream that is no longer.
-- - Server.State, Server.Matches and Server.Lobby: the connections (server/player_connection.cpp),
--   a match (server/game/basic_match.cpp) and server/server.cpp. Server.Exec and Server.Receiver:
--   the thread that reads what a client asks (server/receiver_thread.cpp), as code over the state
--   of the server and the bytes of the client. Server.Seats, Server.Quiet, Server.Moves and
--   Server.Rounds: who is in which match, and what each handler does to it. Server.Shrinks: the
--   loop ends. Server.Payloads, Server.Handled, Server.Served and Server.Refusals: one round on a
--   request. Server.Ticks: the tick of a match. Server.Routing and Server.Delivery: what each
--   connection gets of it.
-- - Queue: the bounded queue between threads (common/queue.h), a step per attempt of a call.
--   Queue.Order: its order and bound for every sequence of steps.
-- - Prelude: lists, maps, sets, integers and texts that the others share.
-- - Examples: concrete data, and the results applied to it.
--
-- An operation that changes an object takes it and returns the new one beside its result. A null
-- pointer, an index of -1 and an exception are none; an exception leaves the state as it is at that
-- point. An int is an integer without bounds, so that signed overflow, which C++ leaves undefined,
-- is not modelled; gold and experience are natural numbers below 2 ^ 64, with the wrap-around of
-- additions written out. The quantity of a slot is a natural number without bounds. A std::string is
-- a list of bytes. A std::map is a list of pairs in the order of the keys, and a std::set such a list of
-- numbers. An item's address stands for its identity, which the code compares pointers by, and the
-- address of a new one is given. Floating-point numbers are bit patterns, and their operations a
-- parameter, since they are the compiler's and the library's; so is std::to_string. The settings
-- are those of a loaded configuration. A world counts the random numbers that it has drawn, and the
-- number of draws gives the next one (World.State.Game): the distributions are the library's. The
-- address of an item that a fight makes is given in the same way.
--
-- The loop of level-ups runs on fuel: one round more than the levels up to one whose limit lies
-- above the experience is enough.
--
-- The search for a free position runs on one round for each position of the map and one more. An
-- attack and a tick are none when an exception leaves them or when the loop of level-ups has used up
-- its fuel (Game.level_ups).
--
-- The receiver's loop runs on fuel as well: each round takes a byte, so that one round more than
-- there are bytes is enough. A round of the loop is one step of the server: each call of the server
-- holds a lock, and only its own thread changes the state and the match of a connection. The worlds
-- of the matches and the file of saves are a parameter of the lobby (Server.State.Worlds), and so
-- are the texts of the errors. The queues of 2 ^ 32 - 2 places are not waited for: a push into a full
-- one leaves it as it is.
--
-- Not modelled: the restoring of a saved player, persistence and the queue of void pointers; and, as
-- input and output, the loaders, sockets, threads and the rest of the client. The worlds of the matches
-- are a parameter of the server, so that what a command does to a world is a parameter of the tick of a
-- match; a command that throws is left out there. The matches of the server are walked in the order of
-- their ids, which is one of the orders that a std::unordered_map may have.
pub mod Text
pub mod Float
pub mod Config
pub mod Item
pub mod Inventory
pub mod Player
pub mod Registry
pub mod Bank
pub mod Queue
pub mod Protocol
pub mod Server
pub mod Npc
pub mod Clan
pub mod World
pub mod Prelude
pub mod Examples
