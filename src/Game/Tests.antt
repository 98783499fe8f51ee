-- ===== src/Game/Tests.antt =====
-- JobTimer_소스코드 (1)/GameServer: a client that logs in and enters, and one that enters twice.
use multi_thread_test.Common.{
  length, get_elem?, ◌>>=◌, crash, undefined, ok, fail, ◌+◌, ◌≤◌, ◌<◌, ◌≡◌, refl, ◌⊎◌, true, none,
  some, [], ◌∷◌, ◌++◌, arith,
}
use multi_thread_test.Game.{
  Player, s_login, s_enter_game, s_chat, enter, broadcast, World, Protobuf, make_send_buffer,
  session_at, send_packet, handle_c_login, handle_c_enter_game, handle_c_chat, on_recv_packet,
  manager_add, on_connected, on_disconnected, run_jobs, packet, connect, step,
}
use multi_thread_test.Game.Players.{times}
use multi_thread_test.Game.Rooms.{AllEnterOnce, Reach, start, next, new_world, Reach-present}
use multi_thread_test.Game.Soundness.{players_of, currents_of}
use multi_thread_test.Game.Buffers.{handle_c_chat-outcome}

-- Packets of 100 bytes, and of what a chat says; an index is a byte.
abbrev protobuf : Protobuf
protobuf = record {
  parse_c_login = λ body. true;
  parse_c_enter_game = λ body. get_elem? body 0;
  parse_c_chat = λ body. some body;
  byte_size = λ p. elim p [ s_login ps ↦ 100 | s_enter_game ↦ 100 | s_chat msg ↦ length msg + 2 ];
}

abbrev knight : Player
knight = record { player_id = 1; player_type = 1; owner_session = 1 }

abbrev mage : Player
mage = record { player_id = 2; player_type = 2; owner_session = 1 }

abbrev logged_in : World
logged_in = record (new_world 2) {
  id_generator = 3;
  sessions =
      record { players = []; current_player = none }
      ∷ record { players = knight ∷ mage ∷ []; current_player = none }
      ∷ [];
  connected = 1 ∷ [];
  sent = (1, s_login (knight ∷ mage ∷ [])) ∷ [];
}

-- The mage is current, and the room has not run its job yet.
abbrev entered : World
entered = record logged_in {
  sessions =
      record { players = []; current_player = none }
      ∷ record { players = knight ∷ mage ∷ []; current_player = some mage }
      ∷ [];
  jobs = enter mage ∷ [];
  sent = (1, s_login (knight ∷ mage ∷ [])) ∷ (1, s_enter_game) ∷ [];
}

entered-Reach : Reach protobuf 2 entered
unfolding step on_connected on_recv_packet handle_c_login handle_c_enter_game session_at send_packet
    make_send_buffer manager_add
entered-Reach =
    next (packet 1 1002 (1 ∷ [])) (next (packet 1 1000 []) (next (connect 1) start refl) refl) refl

entered-AllEnterOnce : AllEnterOnce entered-Reach
unfolding entered-Reach
entered-AllEnterOnce =
    ((λ e s there. ground (arith, there)), ((λ e. absurd (omega arith)), (tt, tt)))

Reach-present_example :
    (players_of 2 entered.sessions ≤ 1)
    × (times 2 entered.room ≤ 1)
    × (times 2 (run_jobs entered.jobs entered.room) ≡ currents_of 2 entered.sessions)
Reach-present_example = Reach-present entered-Reach entered-AllEnterOnce 2

handle_c_chat-outcome_example :
    (4 ≤ 5996
      → handle_c_chat protobuf (b'h' ∷ b'i' ∷ []) entered
        ≡ ok (record entered { jobs = enter mage ∷ broadcast (s_chat (b'h' ∷ b'i' ∷ [])) ∷ [] }))
    × (5996 < 4
        → (handle_c_chat protobuf (b'h' ∷ b'i' ∷ []) entered ≡ fail crash)
          ⊎ (handle_c_chat protobuf (b'h' ∷ b'i' ∷ []) entered ≡ fail undefined))
handle_c_chat-outcome_example = handle_c_chat-outcome protobuf (b'h' ∷ b'i' ∷ []) entered

-- A session that enters with the mage, then with the knight, and ends: the mage stays in the room.
mage_stays :
    (handle_c_enter_game protobuf 1 0 entered >>= λ w.
    on_disconnected 1 w >>= λ w'. ok (run_jobs w'.jobs w'.room))
    ≡ ok (mage ∷ [])
unfolding on_disconnected handle_c_enter_game session_at send_packet make_send_buffer run_jobs
mage_stays = refl

-- C_ENTER_GAME has made the mage current, its session ends on another thread, and then the room gets
-- its Enter, behind the Leave: the mage stays in the room.
abbrev choosing : World
choosing = record entered { jobs = [] }

disconnected_inside :
    (on_disconnected 1 choosing >>= λ w. ok (run_jobs (w.jobs ++ (enter mage ∷ [])) w.room))
    ≡ ok (mage ∷ [])
unfolding on_disconnected session_at run_jobs
disconnected_inside = refl
