-- ===== src/Game/Rooms.antt =====
-- JobTimer_소스코드 (1)/GameServer: the room beside the sessions, in every state of the game server.
use multi_thread_test.Common.{
  ltb, ◌==◌, if◌then◌else◌, ==_iff, replicate, ◌>>◌, require, ok, ℕ, zero, suc, ◌≤◌, ◌≡◌, refl,
  subst, Bool, true, false, Option, none, some, List, [], arith,
}
use multi_thread_test.Game.{
  World, Protobuf, handle_c_login, handle_c_enter_game, handle_c_chat, on_recv_packet, manager_add,
  on_connected, run_jobs, run_first, Event, packet, connect, disconnect, run_job, step,
}
use multi_thread_test.Game.Players.{times, Each}
use multi_thread_test.Game.Soundness.{
  IsOwn, players_of, currents_of, IsSound, currents-le-players, login-IsSound, IsFree,
  enter-IsSound, chat-IsSound, disconnect-IsSound, run_first-IsSound,
}

-- C_ENTER_GAME comes from a session without a current player.
abbrev pub EntersOnce : Event → World → Type 0
EntersOnce (packet i id body) w = id ≡ 1002 → IsFree i w
EntersOnce (connect i) w = Unit {0}
EntersOnce (disconnect i) w = Unit {0}
EntersOnce run_job w = Unit {0}

-- The four kinds of packets.
module _ (pb : Protobuf) (i : ℕ) (w w' : World) (v : IsSound w) where
  unchanged : (ok w ≡ ok w') → IsSound w'
  unchanged e = let same : w ≡ w' = cc e in subst IsSound same v

  login_packet :
      (parsed : Bool) → (if parsed then handle_c_login pb i w else ok w) ≡ ok w' → IsSound w'
  login_packet true e = login-IsSound pb i w w' v e
  login_packet false e = unchanged e

  enter_packet :
      (parsed : Option ℕ)
      → IsFree i w
      → (elim parsed [ none ↦ ok w | some index ↦ handle_c_enter_game pb i index w ]) ≡ ok w'
      → IsSound w'
  enter_packet none free e = unchanged e
  enter_packet (some index) free e = enter-IsSound pb i index w w' v free e

  chat_packet :
      (parsed : Option (List ℕ))
      → (elim parsed [ none ↦ ok w | some msg ↦ handle_c_chat pb msg w ]) ≡ ok w'
      → IsSound w'
  chat_packet none e = unchanged e
  chat_packet (some msg) e = chat-IsSound pb msg w w' v e

  invalid_packet : (known : Bool) → (require known >> ok w) ≡ ok w' → IsSound w'
  invalid_packet true e = unchanged e
  invalid_packet false e = absurd (cc e)

packet-IsSound :
    (pb : Protobuf) (i id : ℕ) (body : List ℕ) (w w' : World)
    → IsSound w
    → (id ≡ 1002 → IsFree i w)
    → on_recv_packet pb i id body w ≡ ok w'
    → IsSound w'
unfolding on_recv_packet
packet-IsSound pb i id body w w' v free e =
    branch (id == 1000) (id == 1002) (id == 1004) (λ h. free ((==_iff id 1002).0 h)) e
  where
    branch :
        (login entering chat : Bool)
        → (entering ≡ true → IsFree i w)
        → (if login
            then (if pb.parse_c_login body then handle_c_login pb i w else ok w)
            else if entering
            then (elim (pb.parse_c_enter_game body) [
              | none ↦ ok w
              | some index ↦ handle_c_enter_game pb i index w
            ])
            else if chat
            then (elim (pb.parse_c_chat body) [ none ↦ ok w | some msg ↦ handle_c_chat pb msg w ])
            else (require (ltb id 65535) >> ok w))
          ≡ ok w'
        → IsSound w'
    branch true entering chat f q = login_packet pb i w w' v (pb.parse_c_login body) q
    branch false true chat f q = enter_packet pb i w w' v (pb.parse_c_enter_game body) (f refl) q
    branch false false true f q = chat_packet pb i w w' v (pb.parse_c_chat body) q
    branch false false false f q = invalid_packet pb i w w' v (ltb id 65535) q

step-IsSound :
    (pb : Protobuf) (e : Event) (w w' : World)
    → IsSound w
    → EntersOnce e w
    → step pb e w ≡ ok w'
    → IsSound w'
unfolding step on_connected
step-IsSound pb (packet i id body) w w' v once e = packet-IsSound pb i id body w w' v once e
step-IsSound pb (connect i) w w' v once e =
    let after : IsSound (record w { connected = manager_add i w.connected }) = record {
      unique = v.unique;
      own = v.own;
      single = v.single;
      present = v.present;
    } in
    let same : record w { connected = manager_add i w.connected } ≡ w' = cc e in
    subst IsSound same after
step-IsSound pb (disconnect i) w w' v once e = disconnect-IsSound i w w' v e
step-IsSound pb run_job w w' v once e =
    let same : run_first w ≡ w' = cc e in subst IsSound same (run_first-IsSound w v)

-- A server with so many sessions, none of which has logged in.
abbrev pub new_world : (session_count : ℕ) → World
new_world session_count = record {
  id_generator = 1;
  sessions = replicate session_count (record { players = []; current_player = none });
  connected = [];
  room = [];
  jobs = [];
  sent = [];
}

pub data Reach (pb : Protobuf) (session_count : ℕ) : World → Type 0 where
  start : Reach pb session_count (new_world session_count)
  next :
      {w w' : World} (e : Event)
      → Reach pb session_count w
      → step pb e w ≡ ok w'
      → Reach pb session_count w'

-- Every C_ENTER_GAME on the way came from a session without a current player.
abbrev pub AllEnterOnce : {pb : Protobuf} {n : ℕ} {w : World} → Reach pb n w → Type 0
AllEnterOnce start = Unit {0}
AllEnterOnce (next {w} e r moved) = EntersOnce e w × AllEnterOnce r

started-sums :
    (id n : ℕ)
    → (players_of id (replicate n (record { players = []; current_player = none })) ≡ 0)
      × (currents_of id (replicate n (record { players = []; current_player = none })) ≡ 0)
started-sums id zero = omega arith
started-sums id (suc n) = omega (arith, started-sums id n)

started-IsOwn : (n : ℕ) → Each IsOwn (replicate n (record { players = []; current_player = none }))
started-IsOwn zero = tt
started-IsOwn (suc n) = (λ id. omega arith, started-IsOwn n)

Reach-IsSound : {pb : Protobuf} {n : ℕ} {w : World} (r : Reach pb n w) → AllEnterOnce r → IsSound w
unfolding run_jobs
Reach-IsSound {pb} {n} start once = record {
  unique = λ id. ground (arith, started-sums id n);
  own = started-IsOwn n;
  single = λ id. omega arith;
  present = λ id. ground (arith, started-sums id n);
}
Reach-IsSound {pb} (next {w} {w'} e r moved) once =
    step-IsSound pb e w w' (Reach-IsSound r once.1) once.0 moved

-- In every state between two events that the game server reaches without a crash, where a handler
-- of a packet, OnConnected, OnDisconnected or a job of the room runs as a whole before the next
-- begins, an id belongs to at most one player of the sessions and to at most one of the room; and
-- the room with its waiting jobs run has an id just as often as current players of the sessions
-- have it. For any packets of sessions that are connected and disconnected in any order, sessions
-- that have no players at the start, and a C_ENTER_GAME only from a session that has no current
-- player.
pub Reach-present :
    {pb : Protobuf} {n : ℕ} {w : World} (r : Reach pb n w)
    → AllEnterOnce r
    → (id : ℕ)
    → (players_of id w.sessions ≤ 1)
      × (times id w.room ≤ 1)
      × (times id (run_jobs w.jobs w.room) ≡ currents_of id w.sessions)
Reach-present {pb} {n} {w} r once id =
    let v = Reach-IsSound r once in
    ground (arith, v.unique id, v.single id, v.present id, currents-le-players id w.sessions v.own)
