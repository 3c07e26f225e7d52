-- ===== src/Store/Sessions/Created.antt =====
-- What the insertion of a session leaves alone.
use devproofai.Base.{
  ℕ, String, ◌≡◌, ◌≢◌, refl, ap, Option, none, some, Option-cases, inl, inr, ne→eq_false,
}
use devproofai.Store.Rows.{Db, AgentVersion}
use devproofai.Store.Sessions.{get_session, create_session, new_session, get_agent, latest_version}

-- A session that was created is the row of its identifier; no other changes, and nothing is
-- parked or released.
pub create_session_others :
    (db : Db) (id workspace agent prompt : String) (name parent : Option String) (now : ℕ)
    (v : AgentVersion) (db' : Db)
    → create_session db id workspace agent prompt name parent now ≡ some (v, db')
    → ((j : String) → id ≢ j → get_session db' j ≡ get_session db j) × (db'.pending ≡ db.pending)
unfolding create_session new_session get_session
create_session_others db id workspace agent prompt name parent now v db' e =
    elim (Option-cases (get_agent db workspace agent)) [
      | inl gone ↦ absurd (none_ne (rw (gone, create_session) at e))
      | inr (a, found) ↦ elim (Option-cases (latest_version db agent)) [
        | inl gone ↦ absurd (none_ne (rw (found, gone, create_session) at e))
        | inr (w, latest) ↦
            let d = same_db (rw (found, latest, create_session) at e) in
            (λ j ne. rw (← d) (rw (ne→eq_false id j ne) refl), rw (← d) refl)
      ]
    ]
  where
    none_ne : ◌≡◌ {A = Option (AgentVersion × Db)} none (some (v, db')) → ⊥
    none_ne h = cc

    same_db :
        {u : AgentVersion} {d : Db}
        → ◌≡◌ {A = Option (AgentVersion × Db)} (some (u, d)) (some (v, db'))
        → d ≡ db'
    same_db {u} {d} h =
        let pair : ◌≡◌ {A = AgentVersion × Db} (u, d) (v, db') = cc in
        ap (λ (t : AgentVersion × Db). t.1) pair
