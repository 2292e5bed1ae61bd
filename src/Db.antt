-- ===== src/Db.antt =====
-- The tables of backend/patchquest/persistence/schema.py that runs live in, and the transactions
-- of backend/patchquest/database.py.
-- An id is a number that stands for a uuid text: ids are compared and ordered, nothing else. A time
-- is a number too, in the order of the ISO texts. `Env` is what the clock and uuid4 give one
-- transaction. The ledger is kept newest first.
pub mod Rows
pub mod Keeps
use patch_quest.Common.{
  ℕ, suc, String, Bool, false, ◌&&◌, Option, none, some, List, [], ◌∷◌, ◌==◌, any, if◌then◌else◌,
  nat_eq, string_eq,
}
use patch_quest.Run.{RunStatus}

pub record Env : Type 0 where
  pub now : ℕ
  pub uid : ℕ

pub record RunRow : Type 0 where
  pub id : ℕ
  pub status : RunStatus
  pub outcome : Option String
  pub verdict : Option String
  pub current_phase : Option String
  pub failure_kind : Option String
  pub attempt : ℕ
  pub updated_at : ℕ
  pub completed_at : Option ℕ
  pub queued_at : Option ℕ
  pub lease_owner : Option String
  pub lease_expires_at : Option ℕ
  pub lease_epoch : ℕ

-- The payloads that the operations of this development write.
pub data Payload : Type 0 where
  status_change : RunStatus → RunStatus → Payload
  decision : ℕ → String → String → Option String → Bool → Payload

pub record Event : Type 0 where
  pub id : ℕ
  pub run_id : ℕ
  pub type : String
  pub phase : Option String
  pub status : Option String
  pub message : Option String
  pub payload : Option Payload
  pub created_at : ℕ
  pub event_uid : ℕ
  pub schema_version : ℕ
  pub actor : String
  pub attempt : ℕ
  pub correlation_id : Option String
  pub causation_id : Option String
  pub redacted : Bool

pub record ApprovalRow : Type 0 where
  pub id : ℕ
  pub run_id : ℕ
  pub type : String
  pub command : Option String
  pub reason : Option String
  pub status : String
  pub created_at : ℕ
  pub side_effect : Option String
  pub risk : Option String
  pub phase : Option String
  pub requested_by : String
  pub resources : List String
  pub expires_at : Option ℕ
  pub resolved_at : Option ℕ
  pub decision : Option String
  pub note : Option String
  pub decided_by : Option String
  pub modified_command : Option String

pub record Grant : Type 0 where
  pub run_id : ℕ
  pub signature : String
  pub side_effect : String
  pub approval_id : ℕ
  pub created_at : ℕ

pub record Store : Type 0 where
  pub runs : List RunRow
  pub events : List Event
  pub event_seq : ℕ  -- the AUTOINCREMENT counter of run_events
  pub approvals : List ApprovalRow
  pub grants : List Grant

-- What a transaction raises.
pub data Error : Type 0 where
  lookup_error illegal_transition stale_transition lease_lost : Error
  approval_not_found already_decided decision_not_allowed : Error
  bad_value : Error

pub data Result {ℓ} (A : Type ℓ) : Type ℓ where
  ok : A → Result A
  err : Error → Result A

-- The body of a transaction: it reads and writes the tables, or raises and leaves none.
abbrev pub Tx : Type 0 → Type 0
Tx A = Store → Result (A × Store)

abbrev pub continue : {A B : Type 0} → Result (A × Store) → (A → Tx B) → Result (B × Store)
continue (ok (a, t)) f = f a t
continue (err e) f = err e

infixl 5 ◌>>=◌ ◌>>◌
abbrev pub ◌>>=◌ : {A B : Type 0} → Tx A → (A → Tx B) → Tx B
◌>>=◌ m f s = continue (m s) f

abbrev pub ◌>>◌ : {A B : Type 0} → Tx A → Tx B → Tx B
m >> k = m >>= λ _. k

abbrev pub pure : {A : Type 0} → A → Tx A
pure a s = ok (a, s)

abbrev pub raise : {A : Type 0} → Error → Tx A
raise e s = err e

abbrev pub read_store : Tx Store
read_store s = ok (s, s)

-- `UPDATE ... WHERE`, and the number of rows that it matches (`rowcount`).
module _ {A : Type 0} where
  unfoldable pub update_where : (A → Bool) → (A → A) → List A → List A
  update_where p f [] = []
  update_where p f (r ∷ rs) = (if p r then f r else r) ∷ update_where p f rs

  unfoldable pub count_where : (A → Bool) → List A → ℕ
  count_where p [] = 0
  count_where p (r ∷ rs) = let n = count_where p rs in if p r then suc n else n

  -- `SELECT ... ORDER BY key LIMIT 1`: the first of the least rows.
  unfoldable pub least : (A → A → Bool) → List A → Option A
  least before [] = none
  least before (r ∷ rs) = elim (least before rs) [
    | none ↦ some r
    | some q ↦ if before q r then some q else some r
  ]

unfoldable pub find_run : ℕ → List RunRow → Option RunRow
find_run i [] = none
find_run i (r ∷ rs) = let rest = find_run i rs in if r.id == i then some r else rest

-- The fence of a worker: the run, the owner and the epoch at which it holds the run.
pub record Fence : Type 0 where
  pub run_id : ℕ
  pub owner : String
  pub epoch : ℕ

unfoldable pub owned_by : Option String → String → Bool
owned_by none w = false
owned_by (some o) w = o == w

unfoldable pub holds_lease : ℕ → String → ℕ → RunRow → Bool
unfolding owned_by
holds_lease run owner epoch r =
    r.id == run && (owned_by r.lease_owner owner && r.lease_epoch == epoch)

unfoldable pub check_fence : Option Fence → Store → Result (Unit {0})
unfolding any holds_lease
check_fence none s = ok tt
check_fence (some f) s =
    if any (holds_lease f.run_id f.owner f.epoch) s.runs then ok tt else err lease_lost

-- The end of `with get_db()`: an exception of the body or of the fence rolls back to `s`.
unfoldable pub commit : {A : Type 0} → Option Fence → Store → Result (A × Store) → Result A × Store
unfolding check_fence
commit fence s (err e) = (err e, s)
commit fence s (ok (a, t)) = elim (check_fence fence t) [ ok _ ↦ (ok a, t) | err e ↦ (err e, s) ]

unfoldable pub get_db : {A : Type 0} → Option Fence → Tx A → Store → Result A × Store
unfolding commit
get_db fence body s = commit fence s (body s)
