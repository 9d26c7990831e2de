-- ===== src/Settlement/Engine/Payout/Reachable.antt =====
-- Every history of calls of `SettlementEngineService` that run one after another.
use Prim.Native.String.{String}
use qift_platform.Prelude.{ℕ, Bool, Option, List, ◌≡◌}
use qift_platform.Prelude.Outcome.{ok}
use qift_platform.Settlement.Store.{Db, Batch, Remittance}
use qift_platform.Settlement.Engine.Assemble.{assemble_batch}
use qift_platform.Settlement.Engine.Lifecycle.{
  SupersedeCause, SupersedeHold, mark_failed, retry, hold_batch, supersede, link_successor,
}
use qift_platform.Settlement.Engine.Close.{Evidence, mark_settled, mark_settled_zero_net}
use qift_platform.Settlement.Engine.Payout.{PaidOnce}
use qift_platform.Settlement.Engine.Payout.Once.{mark_settled-PaidOnce}
use qift_platform.Settlement.Engine.Payout.Lanes.{
  mark_failed-PaidOnce, hold_batch-PaidOnce, retry-PaidOnce,
}
use qift_platform.Settlement.Engine.Payout.Replacement.{supersede-PaidOnce, link_successor-PaidOnce}
use qift_platform.Settlement.Engine.Payout.ZeroNet.{mark_settled_zero_net-PaidOnce}
use qift_platform.Settlement.Engine.Payout.Assembly.{assemble_batch-PaidOnce}

-- One call of the service that commits.
pub data Step : Db → Db → Type 0 where
  assembled :
      (actor store : ℕ) (currency : String) (candidates : List (ℕ × ℕ)) (db db' : Db) (b : Batch)
      → assemble_batch actor store currency candidates db ≡ ok (b, db')
      → Step db db'
  failed :
      (actor id : ℕ) (evidence : String) (db db' : Db) (b : Batch)
      → mark_failed actor id evidence db ≡ ok (b, db')
      → Step db db'
  retried : (actor id : ℕ) (db db' : Db) (b : Batch) → retry actor id db ≡ ok (b, db') → Step db db'
  held :
      (actor id : ℕ) (evidence : String) (db db' : Db) (b : Batch)
      → hold_batch actor id evidence db ≡ ok (b, db')
      → Step db db'
  superseded :
      (actor id : ℕ) (cause : SupersedeCause) (affected : List ℕ) (hold : Option SupersedeHold)
      (db db' : Db) (b : Batch)
      → supersede actor id cause affected hold db ≡ ok (b, db')
      → Step db db'
  linked :
      (old successor : ℕ) (db db' : Db) (b : Batch)
      → link_successor old successor db ≡ ok (b, db')
      → Step db db'
  settled :
      (actor id : ℕ) (e : Evidence) (fresh now : ℕ) (db db' : Db) (r : Remittance × Bool)
      → mark_settled actor id e fresh now db ≡ ok (r, db')
      → Step db db'
  closed :
      (actor id now : ℕ) (db db' : Db) (again : Bool)
      → mark_settled_zero_net actor id now db ≡ ok (again, db')
      → Step db db'

-- A history of calls.
pub data Reach : Db → Db → Type 0 where
  here : (db : Db) → Reach db db
  after : (db mid db' : Db) → Reach db mid → Step mid db' → Reach db db'

Step-PaidOnce : {db db' : Db} → Step db db' → PaidOnce db → PaidOnce db'
Step-PaidOnce (assembled a s c k db db' b h) inv = assemble_batch-PaidOnce a s c k db db' b h inv
Step-PaidOnce (failed a i e db db' b h) inv = mark_failed-PaidOnce a i e db db' b h inv
Step-PaidOnce (retried a i db db' b h) inv = retry-PaidOnce a i db db' b h inv
Step-PaidOnce (held a i e db db' b h) inv = hold_batch-PaidOnce a i e db db' b h inv
Step-PaidOnce (superseded a i c k o db db' b h) inv = supersede-PaidOnce a i c k o db db' b h inv
Step-PaidOnce (linked o n db db' b h) inv = link_successor-PaidOnce o n db db' b h inv
Step-PaidOnce (settled a i e f n db db' r h) inv = mark_settled-PaidOnce a i e f n db db' r h inv
Step-PaidOnce (closed a i n db db' r h) inv = mark_settled_zero_net-PaidOnce a i n db db' r h inv

-- From tables in which no batch is paid twice, every history of committed assemblies, failures,
-- retries, holds, supersessions, links, settles and closes leads to tables in which each batch
-- identifier occurs at most once, a batch has at most one remittance, and a batch that has one is
-- settled as remitted (so neither superseded nor closed at a net of zero).
pub Reach-PaidOnce : {db db' : Db} → Reach db db' → PaidOnce db → PaidOnce db'
Reach-PaidOnce (here db) inv = inv
Reach-PaidOnce (after db mid db' r s) inv = Step-PaidOnce s (Reach-PaidOnce r inv)
