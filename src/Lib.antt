-- ===== src/Lib.antt =====
-- The game rooms of the social gaming platform, their members, the server that keeps them, the
-- commands that users type, and the games that rooms run, with the interpreter of the game language.
--
-- A server keeps users and rooms (module/server). A room (module/chat) holds its members in a map and,
-- beside it, four cached sets of pointers to them, by the part that a member takes; it may hold a game
-- (module/game), which reaches the room through its environment, and which the room asks before it
-- broadcasts a player's message, and for a command that it has no executor for. What a client sends
-- goes through Daemon/Routing. A message that starts with a slash is parsed into a command
-- (module/command) and executed from the room's map of commands, or from the map of the commands
-- outside rooms. A game in the game language (module/game_spec) is run by an interpreter
-- (module/game_manager).
--
-- - Prelude: the names that all modules share, tests on numbers, lists, and texts as lists of bytes.
-- - Std/PtrSet: `std::set<MemberPtr<T>>`, ordered by join time (module/chat/include/MemberPtr.hpp).
-- - Run: methods that change objects, throw, or do something undefined; Run/Keeps: their invariants.
-- - Command: `Command::parse` and `CommandName` (module/command/src); Command/Parse: what parses.
-- - Chat/User: `User` and `PlayerStats` (module/chat/src/User.cpp, module/chat/src/PlayerStats.cpp).
-- - Chat/Member: `Member` (module/chat/src/Member.cpp), with the map of members in Chat/Member/Map and
--   the sets recomputed from it in Chat/Member/Cache.
-- - Chat/Room: `Room` (module/chat/include/Room.hpp, module/chat/src/Room.cpp): its state and queries.
--   Room/Caches has `_cached_remove`, `_cached_add` and `MemberGuard`; Room/Waitlist has
--   `flush_waitlist`, `set_player_limit`, `disqualify_player` and `reset_players`; Room/Membership has
--   `add_user`, `_remove_user` and `set_owner`; Room/Games has the methods that run a game,
--   `process_message` and `process_command`, and the map of commands; Room/SpectatorLimit has
--   `set_spectator_limit`. The other modules under Room hold proofs: Room/Invariant and Room/Good say
--   what a well-formed room is.
-- - Game/Controller: what a room asks of a game (module/game/include/Controller.hpp).
-- - Game/Simon: the example game (module/server_daemon/src/EXAMPLE_Simon.cpp), a controller;
--   the modules under it hold proofs.
-- - Communication: signals and channels with one queue (module/common_communication/include). A run of
--   threads is a list of methods, since each holds a lock for all of its work on a queue.
-- - Daemon/RoomCommands: /members, /kick, /option, /options, /load, /end, /start and /room of
--   `init_room_commands` (module/server_daemon/src/commands.cpp); Daemon/GlobalCommands: the commands
--   outside a room (`init_global_commands` there), and /nick; Daemon/Routing: `process_command`,
--   `process_message` and `process_packet` of module/server_daemon/src/chatserver.cpp;
--   Daemon/MainLoop: a tick of the loop in that file's `main`, with the clients of
--   module/server/src/Server.cpp; Daemon/Config: `load_config_from_json`
--   (module/server_daemon/src/config.cpp). Daemon/Permissions, Daemon/Upkeep and
--   Daemon/MainLoop/Disconnections hold proofs.
-- - Server: `ServerManager` (module/server/src/ServerManager.cpp), its maps in Server/Registry, and
--   joining, leaving and renaming in Server/Movement; Server/Upkeep and Server/Leaving hold proofs.
-- - Spec: the data of a game in the game language (module/game_spec): Spec/Expression has the
--   expressions of include/Expression.h, Spec/Pointer `ExpressionPtr` (src/ExpressionPtr.cpp),
--   Spec/Rule the rules and timers, Spec/State the state of a running game (include/GameState.h).
-- - Interpreter: the interpreter of games (module/game_manager). From src/DSLInterpreter.cpp,
--   Interpreter/Tokens has the texts of names and messages, Interpreter/Attributes `applyAttribute`,
--   Interpreter/Evaluate the lookups, `evaluateExpression` and `createInputRequest`, Interpreter/Lists
--   list expressions and the rules that shorten lists, Interpreter/Visit and Visit/Timer the visitors
--   of the rules, and Interpreter/Accept their choice. Interpreter/Instance is `GameInstance` of
--   include/GameInstance.h, with Instance/Hosting for the members that it meets; its controller
--   (module/server_daemon/src/GameInstanceController.cpp) is Daemon/InstanceController. The modules
--   named Laws and the others under Instance hold proofs.
-- - Result: `arepa::Result` (module/common/include/Result.hpp).
-- - Protocol: packets (module/protocol); the protocol buffers are a parameter.
-- - Networking: `BeastSocket` (module/networking_websocket/src/BeastSocket.cpp); Networking/Threads
--   has its sends and the ends of its writes as steps of threads, one for each locked section and
--   each use of the atomic flag. The modules under them hold proofs.
-- - Collections: `WeakVector` and `WeakCollection` (module/common_collections/include); the modules
--   under Collections/WeakVector hold proofs.
-- - Serializer: game specifications and the server's configuration from JSON
--   (module/serializer/src/jsonSerializer.cpp). Serializer/Json is what is taken of the JSON library,
--   Serializer/Keys std::map and what is known of keys, Serializer/Tables the tables of the header,
--   Serializer/Validation `isValidGameSpec`, Serializer/Expressions `parseExpression`,
--   Serializer/Specification `parseGameSpecification`, Serializer/ServerConfig `parseServerConfig` and
--   Serializer/Rules `parseRule`. Their modules named Shape, Denotes and Describes say what a value
--   means without the parser; the others below them hold proofs.
--
-- A method runs on a world: the room, the users by id, the counter of members and the texts sent so
-- far. An id stands for the session id of a user and for the shared pointer to it, since two entries
-- of a map never share an id. A pointer to a member is its user's id with its join time: the order of
-- the sets reads the join time only, so two members with equal join times are one element of a set,
-- and the theorems about joins take a clock that shows a new time. Counts are 64-bit: `% 2 ^ 64` is
-- written out. The uninitialised flag of a new room is an argument of the constructor. Null pointers
-- that are followed, and iterators that run past the end, give the outcome `undefined`. `_remove_user`
-- reads a member after it was erased, in a game and where it compares the user, a reference into the
-- entry, with the owner: whether such memory still reads as it was is the field `freed_reads` of World
-- and of ServerManager, and without it the read is `undefined`. A failed assert of the serializer does
-- nothing, as in the default build (build, a release); one of the interpreter or of the state of a
-- game is `undefined`, which is less than a release would do.
-- The loops are recursions on the lists that they run over. The loop of `create_room` takes the codes
-- that the generator makes, and the loop of `updateState` one reading of the clock for each round of
-- it: theorems say how many rounds suffice, or that no number does. A rule owns its next and nested
-- rules, so a rule is a tree; a pointer to an expression is the path at which it stands. Signed
-- numbers are integers, and a sum that leaves the range of a 32-bit int is `undefined`. What boost and
-- std::shuffle do is a parameter, Interpreter/Library. The JSON library is a record of its operations
-- with the laws that it documents; the parser of expressions takes a value's depth for fuel, which
-- suffices since an item is less deep than its value.
--
-- The game is a parameter, a record of its methods with a state of its own. Theorems take as
-- hypotheses that a game moves members between the sets but does not add or remove them, as the
-- environment's interface allows, and, for leaving, that its reaction to a quitting player does not
-- throw. Game/Simon/Moving and Game/Simon/Confined show that Simon is such a game. Simon's trimming of
-- a message, a function of boost, is a parameter. The listeners of a room's signals are parameters of
-- its methods that leave the room alone; the server's own are in Server. A shared pointer to a room is
-- the number under which the server made the room, so that a room that has been destroyed is there for
-- those who still hold it.
--
-- Not modelled: the listener for sockets, sessions, the start of the daemon and logging, which are I/O
-- or stand on other libraries; the rule book (module/game_manager/include/RuleBook.h), an older draft
-- of the rules; the random generators of ids and nicknames; the channel with many consumers, whose
-- deaths are not one step each; the terminal client, the database and the destructor of the server
-- manager. The printing of numbers,
-- std::to_string, is a parameter.
pub mod Chat
pub mod Collections
pub mod Command
pub mod Communication
pub mod Daemon
pub mod Game
pub mod Interpreter
pub mod Networking
pub mod Prelude
pub mod Protocol
pub mod Result
pub mod Run
pub mod Serializer
pub mod Server
pub mod Spec
pub mod Std
