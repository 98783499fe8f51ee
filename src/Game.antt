-- ===== src/Game.antt =====
-- JobTimer_소스코드 (1)/GameServer: ClientPacketHandler.h, ClientPacketHandler.cpp, Room.h, Room.cpp,
-- Player.h, GameSession.h, GameSession.cpp, GameSessionManager.h and GameSessionManager.cpp. A session
-- is its place in a list. The jobs of the room wait in its JobQueue, in order; a step of its own runs
-- the first. The Protobuf classes are generated: what ParseFromArray makes of a body and ByteSizeLong
-- of a packet are parameters. The id generator is a natural number, and the room keeps its players in
-- the order in which they enter.
pub mod Buffers
pub mod Players
pub mod Rooms
pub mod Soundness
pub mod Tests
use multi_thread_test.Common.{
  ltb, leb, ◌==◌, if◌then◌else◌, get_elem?, set, Result, ◌>>=◌, ◌>>◌, assert_crash, require,
  undefined, ok, fail, ℕ, ◌+◌, ◌%◌, ◌^◌, Bool, Option, none, some, List, [], ◌∷◌, ◌++◌,
}

pub record Player : Type 0 where
  pub player_id : ℕ
  pub player_type : ℕ
  pub owner_session : ℕ

-- GameSession: `_players` and `_currentPlayer`.
pub record GameSession : Type 0 where
  pub players : List Player
  pub current_player : Option Player

-- The packets to a client.
pub data Packet : Type 0 where
  s_login : List Player → Packet
  s_enter_game : Packet
  s_chat : (msg : List ℕ) → Packet

-- The jobs that DoAsync is given.
pub data RoomJob : Type 0 where
  enter leave : Player → RoomJob
  broadcast : Packet → RoomJob

-- The generator of Handle_C_LOGIN, the sessions, GSessionManager, the players of GRoom and its jobs, and
-- what Send was called with.
pub record World : Type 0 where
  pub id_generator : ℕ
  pub sessions : List GameSession
  pub connected : List ℕ
  pub room : List Player
  pub jobs : List RoomJob
  pub sent : List (ℕ × Packet)

-- What Protobuf does.
pub record Protobuf : Type 0 where
  pub parse_c_login : (body : List ℕ) → Bool
  pub parse_c_enter_game : (body : List ℕ) → Option ℕ  -- playerindex
  pub parse_c_chat : (body : List ℕ) → Option (List ℕ)  -- msg
  pub byte_size : Packet → ℕ

-- ClientPacketHandler::MakeSendBuffer for a packet of `byte_size` bytes; the answer is the size of the
-- buffer. Open asserts that it fits a chunk; the header must fit the buffer; SerializeToArray fails
-- where the packet does not fit its room.
unfoldable pub make_send_buffer : (byte_size : ℕ) → Result ℕ
make_send_buffer byte_size =
    let data_size : ℕ = byte_size % 2 ^ 16 in
    let packet_size : ℕ = (data_size + 4) % 2 ^ 16 in
    do
      assert_crash (leb packet_size 6000)
      require (leb 4 packet_size)
      assert_crash (leb byte_size data_size)
      ok packet_size

-- A session of the list.
unfoldable pub session_at : ℕ → World → Result GameSession
session_at i w = elim (get_elem? w.sessions i) [ none ↦ fail undefined | some s ↦ ok s ]

module _ (pb : Protobuf) where
  -- Session::Send of the packet that MakeSendBuffer puts into a buffer.
  unfoldable pub send_packet : (session : ℕ) → Packet → World → Result World
  send_packet session packet w = make_send_buffer (pb.byte_size packet) >>= λ size.
      ok (record w { sent = w.sent ++ ((session, packet) ∷ []) })

  -- Handle_C_LOGIN: a knight (1) and a mage (2).
  unfoldable pub handle_c_login : (session : ℕ) → World → Result World
  unfolding session_at
  handle_c_login session w = do
    s ← session_at session w
    let knight : Player = record {
      player_id = w.id_generator;
      player_type = 1;
      owner_session = session;
    }
    let mage : Player = record {
      player_id = w.id_generator + 1;
      player_type = 2;
      owner_session = session;
    }
    send_packet session (s_login (knight ∷ mage ∷ [])) (record w {
      id_generator = w.id_generator + 2;
      sessions = set w.sessions session (record s { players = s.players ++ (knight ∷ mage ∷ []) });
    })

  -- Handle_C_ENTER_GAME; `_players[index]` is not tested.
  unfoldable pub handle_c_enter_game : (session index : ℕ) → World → Result World
  unfolding session_at
  handle_c_enter_game session index w = do
    s ← session_at session w
    elim (get_elem? s.players index) [
      | none ↦ fail undefined
      | some player ↦ send_packet player.owner_session s_enter_game (record w {
        sessions = set w.sessions session (record s { current_player = some player });
        jobs = w.jobs ++ (enter player ∷ []);
      })
    ]

  -- Handle_C_CHAT
  unfoldable pub handle_c_chat : (msg : List ℕ) → World → Result World
  handle_c_chat msg w = make_send_buffer (pb.byte_size (s_chat msg)) >>= λ size.
      ok (record w { jobs = w.jobs ++ (broadcast (s_chat msg) ∷ []) })

  -- GameSession::OnRecvPacket: ClientPacketHandler::HandlePacket by the table that Init fills, of 65535
  -- entries, all of them Handle_INVALID but three. What the handler answers is not used.
  unfoldable pub on_recv_packet : (session packet_id : ℕ) → (body : List ℕ) → World → Result World
  on_recv_packet session packet_id body w =
      if packet_id == 1000
      then (if pb.parse_c_login body then handle_c_login session w else ok w)
      else if packet_id == 1002
      then (elim (pb.parse_c_enter_game body) [
        | none ↦ ok w
        | some index ↦ handle_c_enter_game session index w
      ])
      else if packet_id == 1004
      then (elim (pb.parse_c_chat body) [ none ↦ ok w | some msg ↦ handle_c_chat msg w ])
      else (require (ltb packet_id 65535) >> ok w)

-- GameSessionManager::Add and Remove, on a set.
unfoldable pub manager_add : ℕ → List ℕ → List ℕ
manager_add i [] = i ∷ []
manager_add i (x ∷ xs) = if i == x then x ∷ xs else x ∷ manager_add i xs

unfoldable pub manager_remove : ℕ → List ℕ → List ℕ
manager_remove i [] = []
manager_remove i (x ∷ xs) = if i == x then xs else x ∷ manager_remove i xs

-- GameSession::OnConnected
unfoldable pub on_connected : ℕ → World → World
unfolding manager_add
on_connected session w = record w { connected = manager_add session w.connected }

-- GameSession::OnDisconnected
unfoldable pub on_disconnected : ℕ → World → Result World
unfolding session_at manager_remove
on_disconnected session w = do
  s ← session_at session w
  ok (record w {
    connected = manager_remove session w.connected;
    jobs = elim s.current_player [ none ↦ w.jobs | some player ↦ w.jobs ++ (leave player ∷ []) ];
    sessions = set w.sessions session (record { players = []; current_player = none });
  })

-- Room::Enter, Leave and Broadcast.
unfoldable pub room_enter : Player → List Player → List Player
room_enter p [] = p ∷ []
room_enter p (q ∷ qs) = if q.player_id == p.player_id then p ∷ qs else q ∷ room_enter p qs

unfoldable pub room_leave : Player → List Player → List Player
room_leave p [] = []
room_leave p (q ∷ qs) = if q.player_id == p.player_id then qs else q ∷ room_leave p qs

unfoldable pub room_broadcast : Packet → List Player → List (ℕ × Packet)
room_broadcast packet [] = []
room_broadcast packet (q ∷ qs) = (q.owner_session, packet) ∷ room_broadcast packet qs

-- GameSessionManager::Broadcast
unfoldable pub manager_broadcast : Packet → List ℕ → List (ℕ × Packet)
manager_broadcast packet [] = []
manager_broadcast packet (i ∷ is) = (i, packet) ∷ manager_broadcast packet is

-- One job of the room.
unfoldable pub room_after : RoomJob → List Player → List Player
unfolding room_enter room_leave
room_after (enter p) room = room_enter p room
room_after (leave p) room = room_leave p room
room_after (broadcast packet) room = room

unfoldable pub sent_by : RoomJob → List Player → List (ℕ × Packet)
unfolding room_broadcast
sent_by (broadcast packet) room = room_broadcast packet room
sent_by job room = []

unfoldable pub run_jobs : List RoomJob → List Player → List Player
unfolding room_after
run_jobs [] room = room
run_jobs (j ∷ js) room = run_jobs js (room_after j room)

-- What happens: a packet of a session, its start and its end, and the room's next job.
pub data Event : Type 0 where
  packet : (session packet_id : ℕ) → (body : List ℕ) → Event
  connect disconnect : (session : ℕ) → Event
  run_job : Event

unfoldable pub run_first : World → World
run_first w = elim w.jobs [
  | [] ↦ w
  | j ∷ js ↦ record w { jobs = js; room = room_after j w.room; sent = w.sent ++ sent_by j w.room }
]

-- Each event runs as a whole: another worker, which could run OnDisconnected of the session inside
-- its handler of a packet, is not there.
unfoldable pub step : Protobuf → Event → World → Result World
step pb (packet session packet_id body) w = on_recv_packet pb session packet_id body w
step pb (connect session) w = ok (on_connected session w)
step pb (disconnect session) w = on_disconnected session w
step pb run_job w = ok (run_first w)
