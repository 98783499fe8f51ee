-- ===== src/Game/Players.antt =====
-- JobTimer_소스코드 (1)/GameServer: the players of the sessions and of the room, counted by id.
use multi_thread_test.Common.{
  ◌==◌, if◌then◌else◌, get_elem?, set, total, ℕ, zero, suc, ◌+◌, ◌-◌, ◌≤◌, ◌≡◌, refl, ap, subst,
  Bool, true, false, none, some, List, [], ◌∷◌, ◌++◌, arith,
}
use multi_thread_test.Game.{
  Player, GameSession, RoomJob, enter, leave, broadcast, room_enter, room_leave, room_after,
  run_jobs,
}

-- 1 for a player with the id.
abbrev pub is : ℕ → Player → ℕ
is id p = if p.player_id == id then 1 else 0

abbrev pub times : ℕ → List Player → ℕ
times id = total (is id)

abbrev pub is_current : ℕ → GameSession → ℕ
is_current id s = elim s.current_player [ none ↦ 0 | some p ↦ is id p ]

abbrev pub positive : ℕ → Bool
positive n = if n == 0 then false else true

pub times-enter :
    (id : ℕ) (p : Player) (room : List Player)
    → times id (room_enter p room)
      ≡ (if times p.player_id room == 0 then times id room + is id p else times id room)
unfolding room_enter
times-enter id p [] = ground arith
times-enter id p (q ∷ qs) = ground (arith, times-enter id p qs)

pub times-leave :
    (id : ℕ) (p : Player) (room : List Player)
    → times id (room_leave p room)
      ≡ (if times p.player_id room == 0 then times id room else times id room - is id p)
unfolding room_leave
times-leave id p [] = ground arith
times-leave id p (q ∷ qs) = ground (arith, times-leave id p qs)

-- A room holds no two players of one id.
abbrev pub IsSingle : List Player → Type 0
IsSingle room = (id : ℕ) → times id room ≤ 1

pub room_after-IsSingle :
    (j : RoomJob) (room : List Player) → IsSingle room → IsSingle (room_after j room)
unfolding room_after
room_after-IsSingle (enter p) room h id = ground (arith, h id, h p.player_id, times-enter id p room)
room_after-IsSingle (leave p) room h id = ground (arith, h id, times-leave id p room)
room_after-IsSingle (broadcast packet) room h id = h id

pub run_jobs-IsSingle :
    (js : List RoomJob) (room : List Player) → IsSingle room → IsSingle (run_jobs js room)
unfolding run_jobs
run_jobs-IsSingle [] room h = h
run_jobs-IsSingle (j ∷ js) room h =
    run_jobs-IsSingle js (room_after j room) (room_after-IsSingle j room h)

pub run_jobs-append :
    (js : List RoomJob) (j : RoomJob) (room : List Player)
    → run_jobs (js ++ (j ∷ [])) room ≡ room_after j (run_jobs js room)
unfolding run_jobs
run_jobs-append [] j room = refl
run_jobs-append (k ∷ js) j room = run_jobs-append js j (room_after k room)

pub is-le-times :
    (id i : ℕ) (ps : List Player) {p : Player} → get_elem? ps i ≡ some p → is id p ≤ times id ps
is-le-times id i [] e = absurd (cc e)
is-le-times id zero (q ∷ ps) {p} e = let same : q ≡ p = cc e in ground (arith, ap (is id) same)
is-le-times id (suc i) (q ∷ ps) e = omega (arith, is-le-times id i ps e)

-- What holds of each session, and of one that is put in its place.
abbrev pub Each : (GameSession → Type 0) → List GameSession → Type 0
Each P [] = Unit {0}
Each P (s ∷ ss) = P s × Each P ss

pub Each-get :
    (P : GameSession → Type 0) (ss : List GameSession) (i : ℕ) {s : GameSession}
    → get_elem? ss i ≡ some s
    → Each P ss
    → P s
Each-get P [] i e h = absurd (cc e)
Each-get P (t ∷ ss) zero {s} e h = let same : t ≡ s = cc e in subst P same h.0
Each-get P (t ∷ ss) (suc i) e h = Each-get P ss i e h.1

pub Each-set :
    (P : GameSession → Type 0) (ss : List GameSession) (i : ℕ) (s : GameSession)
    → P s
    → Each P ss
    → Each P (set ss i s)
Each-set P [] i s p h = tt
Each-set P (t ∷ ss) zero s p h = (p, h.1)
Each-set P (t ∷ ss) (suc i) s p h = (h.0, Each-set P ss i s p h.1)
