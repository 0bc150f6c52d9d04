-- ===== src/Process/Destroy.antt =====
-- Destroying a process takes its capabilities and its messages away (kernel/src/process.c).
use moonlight_os.Prelude.{ℕ, ◌≤◌, ◌<◌, ◌≡◌, ◌≢◌, true, false, List, some}
use moonlight_os.Cap.{max_caps_per_cnode}
use moonlight_os.Tcb.{zero_tcb}
use moonlight_os.Sched.{max_sched_contexts}
use moonlight_os.Endpoint.{max_endpoints}
use moonlight_os.Mdb.{MdbTree, nil, max_mdb_nodes, lookup}
use moonlight_os.Mdb.Revoke.{Forest, size, elem}
use moonlight_os.Process.{World}
use moonlight_os.Process.Purge.Cleanup.{Cleaned}

-- The node that a lookup finds for a thread, whichever it belongs to: a root, with the nodes of a finite forest below it.
pub record IsRoot (mdb : MdbTree) (tcb_id idx : ℕ) (l : List ℕ) : Type 0 where
  pub found : lookup mdb 0 tcb_id ≡ idx
  pub small : idx < max_mdb_nodes
  pub valid : (mdb.nodes idx).valid ≡ true
  pub root : (mdb.nodes idx).parent ≡ nil
  pub below : Forest mdb.nodes (mdb.nodes idx).first_child l
  pub few : size l ≤ max_mdb_nodes
  pub apart : elem idx l ≡ false

-- A tree without the node `idx` and those of a list, which is otherwise as before.
pub record Untracked (mdb : MdbTree) (idx : ℕ) (l : List ℕ) (mdb' : MdbTree) : Type 0 where
  pub own : (mdb'.nodes idx).valid ≡ false
  pub derived : (j : ℕ) → elem j l ≡ true → idx ≢ j → (mdb'.nodes j).valid ≡ false
  pub rest : (j : ℕ) → elem j l ≡ false → idx ≢ j → mdb'.nodes j ≡ mdb.nodes j

-- A world without a thread: what the destruction of the thread promises.
pub record Destroyed (w : World) (tcb_id idx : ℕ) (l : List ℕ) (w' : World) : Type 0 where
  pub thread : w'.tables.tcbs.threads tcb_id ≡ zero_tcb
  pub others : (i : ℕ) → tcb_id ≢ i → w'.tables.tcbs.threads i ≡ w.tables.tcbs.threads i
  pub cspace :
      (p i : ℕ)
      → (w.tables.tcbs.threads tcb_id).cspace ≡ some p
      → i < max_caps_per_cnode
      → ((w'.cnodes p).slots i).is_valid ≡ false
  pub context :
      (w.tables.tcbs.threads tcb_id).sched_context < max_sched_contexts
      → (w'.tables.sched.contexts (w.tables.tcbs.threads tcb_id).sched_context).bound ≡ false
  pub endpoints : (i : ℕ) → i < max_endpoints → Cleaned tcb_id (w.endpoints i) (w'.endpoints i)
  pub nodes : Untracked w.tables.mdb idx l w'.tables.mdb
