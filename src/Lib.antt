-- ===== src/Lib.antt =====
-- ProjectRunServer: a lobby server and a game server for a game of two players, on a shared network
-- framework. This library models the servers' own logic and proves it correct.
--
-- The program. A client connects to the lobby server (Server/LobbyServer). The network framework
-- (Server/Common/NetworkFramework) hands each receive to `PacketManager::ReceivePacketData`, which
-- appends it to the client's buffer and queues the client; one thread takes clients off the queue, cuts
-- the next packet off the buffer and calls the handler that is registered for its id. The handlers of
-- LobbyManager.h work on the RoomManager, its Rooms and the UserManager, and send packets. When a game
-- starts, a process of the game server (Server/GameServer) is launched and the players get its port and
-- a token, which the lobby has stored in Redis and the game server checks there. The RedisManager
-- (Server/Common/Database) takes tasks of a server from a queue and puts the answers into another.
--
-- Files and what they model:
--   Base         shared helpers: Boolean tests, lists, options and integers over native numbers
--   Packets      Server/Common/Packet: error codes and the packets that the lobby sends; Ids, Layout
--                and the three Structs files hold the bytes of every packet struct, Reading how they
--                are read, Wire proves
--   PacketBuffer Server/Common/UserModels/User.h: SetPacketData, GetPacket, HasPendingPacket.
--                Spec is the same on lists of bytes; Refine, Framing and Delivery relate them
--   Users        Server/Common/UserModels: sessions and UserManager
--   Slots        the seats of a room, the search loops of Room.h
--   LobbyRoom    Server/LobbyServer/Room.h
--   LobbyRooms   Server/LobbyServer/RoomManager.h
--   Lobby        Server/LobbyServer/LobbyManager.h and the handlers of Lobby_PacketManager.cpp:
--                Session, RoomList, Rooms and Match hold the handlers, Dispatch the table of them,
--                Wire the bytes of requests, Loop the loop over clients' packets, Thread a round of the
--                packet thread
--   Actors       Server/Common/UserModels/Actor.h: Speed and Physics; Vectors is
--                Server/Common/Utility/unity.cpp; Lasting proves
--   Network      Server/Common/NetworkFramework: the slot of a client (ClientInfo.h) and the accepter
--                thread; Server the completions and sends of IOCPServer.h; Sending and Reuse prove
--   Redis        Server/Common/Database/RedisManager.h: the queues; Tasks the tasks and messages, Shop
--                inventories and the shop; Tokens, Handover, Admission, Entrance and Items prove
--   PacketQueue  the queue of clients in Lobby_PacketManager.cpp and, for comparison, the one in
--                Server/GameServer/Game_PacketManager.cpp; Drain counts unread bytes, Stranded and
--                Pending prove
--   GameRoom     Server/GameServer/Room.h: Doors (EnterUser, LeaveUser), Ready (ready marks and
--                countdown), Finish (the end of a run), Tick (Update: movement, gimmicks, countdown);
--                Seats, Countdown, Escape, Listed, Visits, Synced and Platforms prove
--   GameServer   Server/GameServer/RoomManager.h and handlers of Game_PacketManager.cpp: Access (token
--                check, connect, disconnect), Play (rooms, ready marks, escape), Relays (what is passed on to
--                a room, gimmicks, inventory, login), Chat (chat commands) and Dispatch (the table
--                from the bytes of a packet), Loop (a round of the packet thread), Udp (a datagram),
--                UdpPool (the buffers of its packets), Opening (RoomManager::Init), Logic (the logic
--                thread); Joining, Forged, Requests, Threads, Datagrams, Leak, Spawned and Pacing prove
--   Gimmicks     Server/GameServer/GimmickManager.cpp: Interact (requests, resets), Update (time),
--                Loading (map files), with the names in them in MapNames; Windows and Origin prove
--
-- How state and operations correspond. A `User*` is its index in the pool, which is also its connection
-- index, and the pool is a function from indices. A room is its index in the manager's list. A handler
-- is a function from the lobby's state to the next one and the list of its effects in order: packets
-- sent, processes launched, tasks pushed for Redis. Handlers run one after the other, as they do on the
-- packet thread; locks are left out for that reason. A receive and a step of the packet thread are each
-- one step of the queue's model. UINT16 and UINT32 counters wrap where the code's do. Room numbers are
-- natural from the first one on, since the server starts them at 0.
--
-- Loops are structural recursion on the slots, or on the number of rooms or users that are left. The
-- lobby's loop over clients' packets has fuel, and more than the unread bytes of all clients is enough;
-- so have the game server's loops, where more than the length of each queue is enough.
--
-- Parameters: the text of a number (`std::to_string`) and the draws of the random engine, in
-- Lobby/Match and Lobby/Starting; the float operations of the countdown, in GameRoom, of which the
-- theorems use that 0 lies between -1 and 5, and those of the gimmicks and actors, in Gimmicks and Actors,
-- of which one theorem uses that a number less itself is 0 and that 0 is not above 0.0001; the patterns of floats in packets and what `std::stoi` reads or refuses, in GameServer; the values that the
-- JSON parser makes of a map file, in Gimmicks/Loading; the
-- commands of Redis with laws for GET, SET, DEL and HSET, in Redis, where a token is looked up before its
-- 60 seconds are over; what the operating system answers to each call on a socket, in Network.
--
-- Not modelled: sockets, the completion port and the start of threads (operating system), the Redis
-- connection (a library), logging, the trade and shop handlers (switched off by `#if 0`), what a handler
-- finds behind the end of a queued packet that is shorter than its struct (it reads as 0), and so far the
-- address to which UDP updates go. Where C++ leaves the behaviour undefined, the model takes one choice:
-- the INT32 counters of a run wrap around, a byte other than 0 and 1 in the answer on a token is not
-- `true`, and what is read through the dangling reference of `GetLastInputSeq` is `none`.
pub mod Base
pub mod Packets
pub mod PacketBuffer
pub mod Users
pub mod Slots
pub mod LobbyRoom
pub mod LobbyRooms
pub mod Lobby
pub mod PacketQueue
pub mod GameRoom
pub mod GameServer
pub mod Gimmicks
pub mod Actors
pub mod Network
pub mod Redis
