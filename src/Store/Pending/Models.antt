-- ===== src/Store/Pending/Models.antt =====
-- The work lists of the sweeps: which models and which writers have parked launches.
use devproofai.Base.{
  String, ◌≡◌, refl, Bool, true, false, not, List, [], ◌∷◌, arith, includes, filter, map, All,
  All-mono, eq_iff, eq_refl, IsDistinct, Bool-cases, inl, inr, sym,
}
use devproofai.Store.Rows.{PendingRow, Db}
use devproofai.Store.Pending.{distinct, is_writer_key, list_pending_launch_models}

pub includes-distinct : (xs : List String) (a : String) → includes (distinct xs) a ≡ includes xs a
unfolding distinct
includes-distinct [] a = refl
includes-distinct (x ∷ xs) a =
    ground (arith, includes-distinct xs a, includes-distinct xs x, eq_iff x a)

pub distinct-IsDistinct : (xs : List String) → IsDistinct (distinct xs)
unfolding distinct
distinct-IsDistinct [] = tt
distinct-IsDistinct (x ∷ xs) = elim (Bool-cases (includes xs x)) [
  | inl old ↦ rw old (distinct-IsDistinct xs)
  | inr new ↦ rw new (rw (includes-distinct xs x) new, distinct-IsDistinct xs)
]

pub All-distinct {κ} : (P : String → Type κ) (xs : List String) → All P xs → All P (distinct xs)
unfolding distinct
All-distinct P [] h = tt
All-distinct P (x ∷ xs) (p, h) = ground (arith, All-distinct P xs h)

-- The column value of a row is in the column of the table.
pub column_has :
    (col : PendingRow → String) (p : PendingRow → Bool) (rows : List PendingRow)
    → All (λ r. p r ≡ true → includes (map col (filter p rows)) (col r) ≡ true) rows
column_has col p [] = tt
column_has col p (r ∷ rows) = (
  λ h. rw h (ground (arith, eq_refl (col r))),
  All-mono _ _ rows
      (λ q h k. elim (Bool-cases (p r)) [ inl t ↦ rw t (ground (arith, h k)) | inr f ↦ rw f (h k) ])
      (column_has col p rows),
)

pub column_only :
    (P : String → Bool) (rows : List PendingRow) (a : String)
    → includes (map (λ r. r.model) (filter (λ r. P r.model) rows)) a ≡ true
    → P a ≡ true
column_only P [] a h = cc
column_only P (r ∷ rows) a h = ground (arith, eq_iff r.model a, column_only P rows a)

-- A model is swept exactly if a row that is no writer's waits for it; so for a row of the table
-- its model is swept exactly if it is no writer's key.
pub listed :
    (db : Db)
    → All
        (λ r. includes (list_pending_launch_models db) r.model ≡ not (is_writer_key r.model))
        db.pending
unfolding list_pending_launch_models
listed db =
    All-mono _ _ db.pending
      (λ r h.
        rw (includes-distinct)
          (iff_eq _ _ (column_only (λ m. not (is_writer_key m)) db.pending r.model) h))
      (column_has (λ r. r.model) (λ r. not (is_writer_key r.model)) db.pending)
  where
    iff_eq : (a b : Bool) → (a ≡ true → b ≡ true) → (b ≡ true → a ≡ true) → a ≡ b
    iff_eq true b h k = sym (h refl)
    iff_eq false true h k = k refl
    iff_eq false false h k = refl
