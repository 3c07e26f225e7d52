-- ===== src/Store/Pending/Parked.antt =====
-- A parked launch is found under its session.
use devproofai.Base.{
  ℕ, String, ◌≡◌, refl, ◌∙◌, true, false, List, [], ◌∷◌, ◌++◌, some, arith, ◌==◌, find_row,
  update_row, find_row-append, eq_refl, Bool-cases, inl, inr, is_some,
}
use devproofai.Store.Rows.{PendingRow, Launch, Db, pending_key}
use devproofai.Store.Pending.{add_pending_launch, parked_row}

module _ (id model : String) (p : Launch) (now : ℕ) where
  replaced :
      (rows : List PendingRow)
      → is_some (find_row pending_key id rows) ≡ true
      → find_row pending_key id (update_row pending_key id (λ q. parked_row id model p now) rows)
        ≡ some (parked_row id model p now)
  unfolding parked_row
  replaced [] h = ground (arith, h)
  replaced (r ∷ rows) h = elim (Bool-cases (r.session_id == id)) [
    | inl same ↦ rw same (rw (eq_refl id) refl)
    | inr other ↦ rw other (rw other (replaced rows (ground (arith, h, other))))
  ]

  appended :
      (rows : List PendingRow)
      → is_some (find_row pending_key id rows) ≡ false
      → find_row pending_key id (rows ++ parked_row id model p now ∷ [])
        ≡ some (parked_row id model p now)
  unfolding parked_row
  appended rows h = find_row-append pending_key id rows _ ∙ ground (arith, h, eq_refl id)

  pub find_row-add_pending_launch :
      (db : Db)
      → find_row pending_key id (add_pending_launch db id model p now).pending
        ≡ some (record { session_id = id; model = model; payload = p; created_at = now })
  unfolding add_pending_launch parked_row
  find_row-add_pending_launch db =
      elim (Bool-cases (is_some (find_row pending_key id db.pending))) [
        | inl there ↦ rw there (replaced db.pending there)
        | inr new ↦ rw new (appended db.pending new)
      ]
