-- ===== src/Sessions/Slots.antt =====
-- `start_user` and `stop_user`: how a session takes its slot and gives it back. The table is the list
-- of the MAX_USER entries, of which these functions read the fields of a `Session`.
use mcchost.Base.{
  ℕ, suc, ◌+◌, Bool, true, false, not, ◌&&◌, ◌||◌, Option, none, some, List, [], ◌∷◌, leb, ltb,
  ◌==◌, if◌then◌else◌, max, set,
}

abbrev pub Bytes : Type 0
Bytes = List ℕ

-- A `session_id` of 0 is none.
pub record Session : Type 0 where
  pub name : Bytes
  pub active : Bool
  pub session_id : ℕ
  pub packet_idle : Bool

-- `strcmp`.
unfoldable pub is_same : Bytes → Bytes → Bool
is_same [] [] = true
is_same [] (b ∷ bs) = false
is_same (a ∷ as_) [] = false
is_same (a ∷ as_) (b ∷ bs) = a == b && is_same as_ bs

-- The variables of the loop of `start_user`.
pub record Scan : Type 0 where
  pub new_one : Option ℕ
  pub kicked : ℕ
  pub connected_sessions : ℕ
  pub highest_uid : ℕ

abbrev pub or_here : Option ℕ → ℕ → Option ℕ
or_here none i = some i
or_here (some n) i = some n

-- A connection that logs in; `is_alive` is what `kill` with signal 0 tells of a process.
pub record Login : Type 0 where
  pub user_id : Bytes
  pub pid : ℕ
  pub user_authenticated : Bool
  pub is_admin : Bool
  pub is_alive : ℕ → Bool

module _ (who : Login) where
  unfoldable pub has_died : Session → Bool
  has_died e = e.session_id == 0 || not (who.is_alive e.session_id)

  -- One round of the loop; no result where the user is logged in already.
  unfoldable pub scan_one : ℕ → Session → Scan → Option (Session × Scan)
  scan_one i e st =
      let counted = record st { connected_sessions = st.connected_sessions + 1 } in
      if not e.active
      then some (e, if e.session_id == 0 then record st { new_one = or_here st.new_one i } else st)
      else if not (is_same who.user_id e.name)
      then some (e, record counted { highest_uid = i })
      else if has_died e
      then some (
        record e { active = false; session_id = 0 },
        record counted { new_one = or_here st.new_one i },
      )
      else if not who.user_authenticated && not e.packet_idle
      then none
      else some
          (record e { active = false }, record counted { kicked = st.kicked + 1; highest_uid = i })

  abbrev pub with_first : Session → Option (List Session × Scan) → Option (List Session × Scan)
  with_first e none = none
  with_first e (some (es, st)) = some (e ∷ es, st)

  unfoldable pub scan : ℕ → List Session → Scan → Option (List Session × Scan)
  scan i [] st = some ([], st)
  scan i (e ∷ es) st = elim (scan_one i e st) [
    | none ↦ none
    | some r ↦ with_first r.0 (scan (suc i) es r.1)
  ]

  unfoldable pub new_session : Session
  new_session = record {
    name = who.user_id;
    active = true;
    session_id = who.pid;
    packet_idle = false;
  }

-- The ways `start_user` ends: the process goes on with a slot, or ends with a message.
pub data Start : Type 0 where
  started : List Session → ℕ → ℕ → ℕ → Start
  too_many : List Session → Start
  try_again : List Session → Start
  already_logged_in : Start

-- `max_players` is put between 1 and MAX_USER.
unfoldable pub clamp_players : ℕ → ℕ
clamp_players n = if ltb n 1 then 1 else (if ltb 1024 n then 1024 else n)

unfoldable pub begin_scan : Scan
begin_scan = record { new_one = none; kicked = 0; connected_sessions = 0; highest_uid = 0 }

module _ (who : Login) (max_players : ℕ) where
  -- The slot, unless there are too many sessions.
  unfoldable pub chosen : Scan → Option ℕ
  chosen st =
      if leb (clamp_players max_players) st.connected_sessions && not who.is_admin
      then none
      else st.new_one

  -- The table, the slot, `highest_used_uid` and `connected_sessions`.
  unfoldable pub take_slot : List Session → Scan → Start
  take_slot users st = elim (chosen st) [
    | none ↦ if st.kicked == 0 then too_many users else try_again users
    | some n ↦
        started (set users n (new_session who)) n (max st.highest_uid n) (st.connected_sessions + 1)
  ]

  unfoldable pub start_user : List Session → Start
  start_user users = elim (scan who 0 users begin_scan) [
    | none ↦ already_logged_in
    | some r ↦ take_slot r.0 r.1
  ]
