-- ===== src/Routing/Constraints.antt =====
-- pkg/routing/constraint.go: the retention constraints. The Go map from them is the set of its keys.
use dtn7_gold.Prelude.{Bool, false, not, ◌||◌, ◌&&◌}

pub data Constraint : Type 0 where
  dispatch_pending forward_pending reassembly_pending contraindicated local_endpoint : Constraint

pub record Constraints : Type 0 where
  pub dispatch : Bool
  pub forward : Bool
  pub reassembly : Bool
  pub contra : Bool
  pub local : Bool

abbrev pub no_constraints : Constraints
no_constraints = record {
  dispatch = false;
  forward = false;
  reassembly = false;
  contra = false;
  local = false;
}

-- The entry of one key.
unfoldable pub has_key : Constraint → Constraints → Bool
has_key dispatch_pending cs = cs.dispatch
has_key forward_pending cs = cs.forward
has_key reassembly_pending cs = cs.reassembly
has_key contraindicated cs = cs.contra
has_key local_endpoint cs = cs.local

unfoldable pub set_key : Constraint → Bool → Constraints → Constraints
set_key dispatch_pending v cs = record cs { dispatch = v }
set_key forward_pending v cs = record cs { forward = v }
set_key reassembly_pending v cs = record cs { reassembly = v }
set_key contraindicated v cs = record cs { contra = v }
set_key local_endpoint v cs = record cs { local = v }

-- `len(constraints) == 0`.
unfoldable pub are_empty : Constraints → Bool
are_empty cs = not (cs.dispatch || (cs.forward || (cs.reassembly || (cs.contra || cs.local))))

-- `PurgeConstraints`.
unfoldable pub purge : Constraints → Constraints
purge cs = record no_constraints { local = cs.local }

-- `Pending` of the item that `Sync` writes.
unfoldable pub is_pending : Constraints → Bool
is_pending cs = not cs.reassembly && (cs.forward || cs.contra)
