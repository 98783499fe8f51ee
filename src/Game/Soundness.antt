-- ===== src/Game/Soundness.antt =====
-- JobTimer_소스코드 (1)/GameServer: what every handler keeps of the sessions and the room.
use multi_thread_test.Common.{
  ltb, if◌then◌else◌, Option-cases, get_elem?, set, total, total-plus, total-set, bind-ok,
  undefined, ok, fail, ℕ, ◌+◌, ◌≤◌, ◌≡◌, refl, sym, ap, ◌∙◌, subst, inl, inr, Option, none, some,
  List, [], ◌∷◌, ◌++◌, arith,
}
use multi_thread_test.Game.{
  Player, GameSession, Packet, s_enter_game, s_chat, RoomJob, enter, leave, broadcast, World,
  Protobuf, make_send_buffer, session_at, send_packet, handle_c_login, handle_c_enter_game,
  handle_c_chat, manager_remove, sent_by, on_disconnected, room_after, run_jobs, run_first,
}
use multi_thread_test.Game.Players.{
  is, times, is_current, positive, times-enter, times-leave, IsSingle, room_after-IsSingle,
  run_jobs-append, is-le-times, Each, Each-get, Each-set,
}

-- The current player of a session is one of its players.
abbrev pub IsOwn : GameSession → Type 0
IsOwn s = (id : ℕ) → is_current id s ≤ times id s.players

-- The players with an id, and those who are current, of all sessions.
abbrev pub players_of : ℕ → List GameSession → ℕ
players_of id = total (λ s. times id s.players)

abbrev pub currents_of : ℕ → List GameSession → ℕ
currents_of id = total (is_current id)

-- Ids below the generator belong to one player at most, others to none; and the room, when its jobs
-- have run, has just the current players.
pub record IsSound (w : World) : Type 0 where
  pub unique : (id : ℕ) → players_of id w.sessions ≤ (if ltb id w.id_generator then 1 else 0)
  pub own : Each IsOwn w.sessions
  pub single : IsSingle w.room
  pub present :
      (id : ℕ)
      → times id (run_jobs w.jobs w.room) ≡ (if positive (currents_of id w.sessions) then 1 else 0)

pub currents-le-players :
    (id : ℕ) (ss : List GameSession) → Each IsOwn ss → currents_of id ss ≤ players_of id ss
currents-le-players id [] h = omega arith
currents-le-players id (s ∷ ss) h = omega (arith, h.0 id, currents-le-players id ss h.1)

-- A packet that is sent changes nothing but what is sent.
send_packet-ok :
    (pb : Protobuf) (session : ℕ) (p : Packet) (w w' : World)
    → send_packet pb session p w ≡ ok w'
    → w' ≡ record w { sent = w.sent ++ ((session, p) ∷ []) }
unfolding send_packet
send_packet-ok pb session p w w' e =
    let (size, made, done) = bind-ok (make_send_buffer (pb.byte_size p)) _ w' e in cc done

-- The list of sessions at the place of a session.
session_at-ok :
    (i : ℕ) (w : World) (s : GameSession) → session_at i w ≡ ok s → get_elem? w.sessions i ≡ some s
unfolding session_at
session_at-ok i w s e = ground (arith, e)

-- What is sent does not matter.
sent-IsSound :
    (pb : Protobuf) (i : ℕ) (p : Packet) (w w' : World)
    → IsSound w
    → send_packet pb i p w ≡ ok w'
    → IsSound w'
sent-IsSound pb i p w w' v e =
    let after : IsSound (record w { sent = w.sent ++ ((i, p) ∷ []) }) = record {
      unique = v.unique;
      own = v.own;
      single = v.single;
      present = v.present;
    } in
    subst IsSound (sym (send_packet-ok pb i p w w' e)) after

-- Two players with new ids.
logged_in-IsSound :
    (i : ℕ) (s : GameSession) (a b : Player) (w : World)
    → IsSound w
    → get_elem? w.sessions i ≡ some s
    → a.player_id ≡ w.id_generator
    → b.player_id ≡ w.id_generator + 1
    → IsSound (record w {
      id_generator = w.id_generator + 2;
      sessions = set w.sessions i (record s { players = s.players ++ (a ∷ b ∷ []) });
    })
logged_in-IsSound i s a b w v there ea eb =
    let s' : GameSession = record s { players = s.players ++ (a ∷ b ∷ []) } in
    let more = λ (id : ℕ). total-plus (is id) s.players (a ∷ b ∷ []) in
    record {
      unique = λ id. ground (
        arith,
        v.unique id,
        more id,
        total-set (λ t. times id t.players) w.sessions i s s' there,
      );
      own =
          Each-set IsOwn w.sessions i s'
            (λ id. ground (arith, more id, Each-get IsOwn w.sessions i there v.own id)) v.own;
      single = v.single;
      present =
          λ id. ground (arith, v.present id, total-set (is_current id) w.sessions i s s' there);
    }

-- A session without a current player takes one of its players.
entered-IsSound :
    (i index : ℕ) (s : GameSession) (p : Player) (w : World)
    → IsSound w
    → get_elem? w.sessions i ≡ some s
    → s.current_player ≡ none
    → get_elem? s.players index ≡ some p
    → IsSound (record w {
      sessions = set w.sessions i (record s { current_player = some p });
      jobs = w.jobs ++ (enter p ∷ []);
    })
unfolding room_after
entered-IsSound i index s p w v there without player =
    let s' : GameSession = record s { current_player = some p } in
    record {
      unique = λ id.
          ground (arith, v.unique id, total-set (λ t. times id t.players) w.sessions i s s' there);
      own = Each-set IsOwn w.sessions i s' (λ id. is-le-times id index s.players player) v.own;
      single = v.single;
      present = λ id. rw (run_jobs-append w.jobs (enter p) w.room) (
          ground (
            arith,
            v.present id,
            v.present p.player_id,
            times-enter id p (run_jobs w.jobs w.room),
            total-set (is_current id) w.sessions i s s' there,
          ));
    }

-- A session ends: it has no players any more, and its current one is to leave the room.
left-IsSound :
    (i : ℕ) (s : GameSession) (w : World) (connected : List ℕ) (js : List RoomJob)
    → IsSound w
    → get_elem? w.sessions i ≡ some s
    → js ≡ (elim s.current_player [ none ↦ w.jobs | some p ↦ w.jobs ++ (leave p ∷ []) ])
    → IsSound (record w {
      connected = connected;
      jobs = js;
      sessions = set w.sessions i (record { players = []; current_player = none });
    })
unfolding room_after
left-IsSound i s w connected js v there e =
    let s' : GameSession = record { players = []; current_player = none } in
    record {
      unique = λ id.
          ground (arith, v.unique id, total-set (λ t. times id t.players) w.sessions i s s' there);
      own = Each-set IsOwn w.sessions i s' (λ id. omega arith) v.own;
      single = v.single;
      present = λ id. elim (Option-cases s.current_player) [
        | inl without ↦
            (let stay : js ≡ w.jobs = ground (arith, e, without) in
              rw stay (
                ground (
                  arith,
                  without,
                  v.present id,
                  total-set (is_current id) w.sessions i s s' there,
                )))
        | inr (p, current) ↦
            (let more : js ≡ w.jobs ++ (leave p ∷ []) = ground (arith, e, current) in
              rw (more, run_jobs-append w.jobs (leave p) w.room)
                (ground (
                  arith,
                  current,
                  v.present id,
                  v.present p.player_id,
                  v.unique id,
                  times-leave id p (run_jobs w.jobs w.room),
                  total-set (is_current id) w.sessions i s s' there,
                  total-set (is_current p.player_id) w.sessions i s s' there,
                  currents-le-players id w.sessions v.own,
                )))
      ];
    }

pub login-IsSound :
    (pb : Protobuf) (i : ℕ) (w w' : World) → IsSound w → handle_c_login pb i w ≡ ok w' → IsSound w'
unfolding handle_c_login
login-IsSound pb i w w' v e =
    let (s, found, sent) = bind-ok (session_at i w) _ w' e in
    sent-IsSound pb i _ _ w' (logged_in-IsSound i s _ _ w v (session_at-ok i w s found) refl refl)
      sent

-- The session at a place has no current player.
abbrev pub IsFree : ℕ → World → Type 0
IsFree i w = (s : GameSession) → get_elem? w.sessions i ≡ some s → s.current_player ≡ none

pub enter-IsSound :
    (pb : Protobuf) (i index : ℕ) (w w' : World)
    → IsSound w
    → IsFree i w
    → handle_c_enter_game pb i index w ≡ ok w'
    → IsSound w'
unfolding handle_c_enter_game
enter-IsSound pb i index w w' v free e =
    let (s, found, rest) = bind-ok (session_at i w) _ w' e in
    let there : get_elem? w.sessions i ≡ some s = session_at-ok i w s found in
    taken s there (get_elem? s.players index) refl rest
  where
    taken :
        (s : GameSession)
        → get_elem? w.sessions i ≡ some s
        → (o : Option Player) → get_elem? s.players index ≡ o
        → (elim o [
          | none ↦ fail undefined
          | some p ↦ send_packet pb p.owner_session s_enter_game (record w {
            sessions = set w.sessions i (record s { current_player = some p });
            jobs = w.jobs ++ (enter p ∷ []);
          })
        ])
          ≡ ok w'
        → IsSound w'
    taken s there none missing sent = absurd (cc sent)
    taken s there (some p) player sent =
        sent-IsSound pb p.owner_session s_enter_game _ w'
          (entered-IsSound i index s p w v there (free s there) player) sent

pub chat-IsSound :
    (pb : Protobuf) (msg : List ℕ) (w w' : World)
    → IsSound w
    → handle_c_chat pb msg w ≡ ok w'
    → IsSound w'
unfolding handle_c_chat room_after
chat-IsSound pb msg w w' v e =
    let (size, made, done) = bind-ok (make_send_buffer (pb.byte_size (s_chat msg))) _ w' e in
    let after : IsSound (record w { jobs = w.jobs ++ (broadcast (s_chat msg) ∷ []) }) = record {
      unique = v.unique;
      own = v.own;
      single = v.single;
      present = λ id. rw (run_jobs-append w.jobs (broadcast (s_chat msg)) w.room) (v.present id);
    } in
    let same : record w { jobs = w.jobs ++ (broadcast (s_chat msg) ∷ []) } ≡ w' = cc done in
    subst IsSound same after

pub disconnect-IsSound :
    (i : ℕ) (w w' : World) → IsSound w → on_disconnected i w ≡ ok w' → IsSound w'
unfolding on_disconnected
disconnect-IsSound i w w' v e =
    let (s, found, done) = bind-ok (session_at i w) _ w' e in
    let there : get_elem? w.sessions i ≡ some s = session_at-ok i w s found in
    subst IsSound (cc done) (left-IsSound i s w (manager_remove i w.connected) _ v there refl)

pub run_first-IsSound : (w : World) → IsSound w → IsSound (run_first w)
unfolding run_first run_jobs
run_first-IsSound w v = go w.jobs refl
  where
    go :
        (js : List RoomJob)
        → w.jobs ≡ js
        → IsSound (elim js [
          | [] ↦ w
          | j ∷ rest ↦ record w {
            jobs = rest;
            room = room_after j w.room;
            sent = w.sent ++ sent_by j w.room;
          }
        ])
    go [] e = v
    go (j ∷ rest) e = record {
      unique = v.unique;
      own = v.own;
      single = room_after-IsSingle j w.room v.single;
      present = λ id. ap (λ js. times id (run_jobs js w.room)) (sym e) ∙ v.present id;
    }
