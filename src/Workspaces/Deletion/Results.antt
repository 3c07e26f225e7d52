-- ===== src/Workspaces/Deletion/Results.antt =====
-- What the deletions of a session and of a file make of the store, where they are not refused.
use devproofai.Base.{
  String, ◌≡◌, refl, subst, false, not, ◌&&◌, List, none, some, ◌==◌, any, filter, map, is_some,
  find_row, inl, inr, Bool-cases,
}
use devproofai.Store.Rows.{Db}
use devproofai.Files.{
  file_key, Deleted, delete_file, delete_file_record_by_id, drop_file_rows, is_held,
}
use devproofai.Files.Sessions.{delete_session, drop_session, detached, is_session_file}
use devproofai.Workspaces.Deletion.Owned.{without}

-- What holds of the one result holds of every result.
pub of_some {ℓ κ} : {A : Type ℓ} (P : A → Type κ) (x y : A) → P x → some x ≡ some y → P y
of_some P x y p e = subst P (some_injective e) p
  where
    some_injective : some x ≡ some y → x ≡ y
    some_injective e = cc

module _ (db : Db) (ws id : String) where
  -- What the deletion of a session makes of the store, where it is not refused.
  pub session-of_some {κ} :
      (P : Db → Type κ) (r : Db × List String)
      → P (drop_session ws id (drop_file_rows (is_session_file ws id) db))
      → delete_session db ws id ≡ some r
      → P r.0
  unfolding delete_session
  session-of_some P r p e =
      elim (Bool-cases (any (λ f. is_session_file ws id f && is_held db f.id) db.files)) [
        | inl held ↦ elim (clash (rw held at e)) [ ]
        | inr freed ↦ of_some (λ x. P x.0) _ r p (rw freed at e)
      ]
    where
      clash : none ≡ some r → ⊥
      clash e = cc

  pub file-of_some {κ} :
      (P : Db → Type κ) (r : Db × Deleted)
      → (any (λ f. (f.id == id) && (f.workspace_id == ws)) db.files ≡ false → P db)
      → P (drop_file_rows (λ f. f.id == id) db)
      → delete_file db ws id ≡ some r
      → P r.0
  unfolding delete_file delete_file_record_by_id
  file-of_some P r p q e =
      elim (Bool-cases (any (λ f. (f.id == id) && (f.workspace_id == ws)) db.files)) [
        | inr absent ↦ of_some (λ x. P x.0) _ r (p absent) (rw absent at e)
        | inl there ↦ elim (Bool-cases (is_some (find_row file_key id db.files) && is_held db id)) [
          | inl held ↦ elim (clash (rw (there, held) at e)) [ ]
          | inr freed ↦ of_some (λ x. P x.0) _ r q (rw (there, freed) at e)
        ]
      ]
    where
      clash : none ≡ some r → ⊥
      clash e = cc

  pub drop_session-case {κ} :
      (P : Db → Type κ)
      → (any (λ s. (s.id == id) && (s.workspace_id == ws)) db.sessions ≡ false → P db)
      → P (record db {
        sessions = without (λ s. s.id) (λ s. s.workspace_id) ws id db.sessions;
        events = filter (λ e. not (e.session_id == id)) db.events;
        pending = filter (λ p. not (p.session_id == id)) db.pending;
        session_files = filter (λ r. not (r.session_id == id)) db.session_files;
        files = map (detached id) db.files;
      })
      → P (drop_session ws id db)
  unfolding drop_session
  drop_session-case P p q =
      elim (Bool-cases (any (λ s. (s.id == id) && (s.workspace_id == ws)) db.sessions)) [
        | inl found ↦ subst P (rw found refl) q
        | inr absent ↦ subst P (rw absent refl) (p absent)
      ]
