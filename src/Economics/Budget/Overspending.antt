-- ===== src/Economics/Budget/Overspending.antt =====
-- Two approvals by `finalize_budget_proposal` of requests that `propose_budget_spend` finds covered
-- (crates/runtime/icn-economics/src/budget_ops.rs).
use icn.Prelude.{nat_eq, string_eq}
use icn.Prelude.Map.{Map}
use icn.Prelude.Floats.{Floats}
use icn.Economics.Types.{resource_eq}
