-- ===== src/Tests/Logins.antt =====
-- Logins into a table of three slots.
use mcchost.Base.{ℕ, ◌+◌, ◌≡◌, refl, true, false, List, [], ◌∷◌, set, arith, leb, ◌&&◌, ◌<◌}
use mcchost.Sessions.Slots.{
  Session, Login, is_same, has_died, scan_one, scan, new_session, Start, started, clamp_players,
  chosen, take_slot, begin_scan, start_user,
}
use mcchost.Sessions.Started.{IsStarted, start_user-IsStarted}
use mcchost.Sessions.Admitted.{start_user_enough}

-- Ann logs in as process 30; the processes from 20 on are alive.
abbrev ann_again : Login
ann_again = record {
  user_id = b'a' ∷ [];
  pid = 30;
  user_authenticated = true;
  is_admin = false;
  is_alive = λ (p : ℕ). leb 20 p;
}

abbrev bob : Session
bob = record { name = b'b' ∷ []; active = true; session_id = 21; packet_idle = false }

abbrev nobody : Session
nobody = record { name = []; active = false; session_id = 0; packet_idle = false }

-- An old session of Ann, which is dead, and one that goes on.
abbrev three_slots : List Session
three_slots =
    record { name = b'a' ∷ []; active = true; session_id = 7; packet_idle = false }
    ∷ bob
    ∷ record { name = b'a' ∷ []; active = true; session_id = 22; packet_idle = true }
    ∷ []

three_then : List Session
three_then =
    record { name = b'a' ∷ []; active = true; session_id = 30; packet_idle = false }
    ∷ bob
    ∷ record { name = b'a' ∷ []; active = false; session_id = 22; packet_idle = true }
    ∷ []

login_seen : start_user ann_again 10 three_slots ≡ started three_then 0 2 4
unfolding start_user scan scan_one has_died is_same begin_scan take_slot chosen clamp_players
    new_session three_then
login_seen = refl

-- The slot of the dead session counts as one of three sessions, so that with three players at most
-- its own user is not let in.
refused_seen :
    start_user ann_again 3 three_slots
    ≡ Start.try_again (set three_then 0 (record nobody { name = b'a' ∷ [] }))
unfolding start_user scan scan_one has_died is_same begin_scan take_slot chosen clamp_players
    new_session three_then
refused_seen = refl

start_user-IsStarted_example : IsStarted ann_again 10 three_slots three_then 0 2 4
start_user-IsStarted_example =
    start_user-IsStarted ann_again 10 three_slots three_then 0 2 4 login_seen

bob_is_other : (bob.active && is_same (b'a' ∷ []) bob.name) ≡ false
unfolding is_same
bob_is_other = refl

room : 1 < clamp_players 10
unfolding clamp_players
room = omega arith

start_user_enough_example :
    (n : ℕ) × (highest : ℕ) × (start_user ann_again 10 (bob ∷ nobody ∷ [])
      ≡ started (set (bob ∷ nobody ∷ []) n (new_session ann_again)) n highest (1 + 1))
start_user_enough_example =
    start_user_enough ann_again 10 (bob ∷ nobody ∷ []) 1 (bob_is_other, (refl, tt))
      (nobody, refl, (refl, refl)) room
