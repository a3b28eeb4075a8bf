-- ===== src/Plan/Context.antt =====
-- What the expressions of a job can refer to before it runs: `base_context` of src/plan.rs.
use ci.Common.{[], codes, map}
use ci.Json.{string, object, end, field, fields_of}
use ci.Expr.Values.{World}
use ci.Expr.Call.{Context, set_scope}
use ci.Plan.Jobs.{JobPlan}

module _ (w : World) where
  open w use {Number}

  unfoldable pub base_context : JobPlan Number → Context w
  base_context plan =
      set_scope w (codes "job")
        (object
          (field (codes "id") (string plan.base_id) (field (codes "key") (string plan.key) end)))
        (set_scope w (codes "env") (object (fields_of (map (λ e. (e.0, string e.1)) plan.env)))
          (set_scope w (codes "matrix") (object (fields_of plan.matrix)) []))
