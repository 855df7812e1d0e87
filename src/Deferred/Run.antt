-- ===== src/Deferred/Run.antt =====
-- The runs of a deferred boundary (dagr_mcp/deferred_boundary.py): any sequence of deferrals and
-- resumes. Each runs under the lock of the store or of its slot, so an interleaving of threads is
-- such a sequence; a resume of the very slot whose inner handler is running would block, and is
-- not one.
use dagr_mcp.Prelude.{String, ◌≡◌, none, []}
use dagr_mcp.Deferred.{Surroundings, Boundary}
use dagr_mcp.Deferred.Slots.{lookup}
use dagr_mcp.Deferred.Defer.{DeferCall, defer_call}
use dagr_mcp.Deferred.Resume.{ResumeCall, resume_call}

pub data Operation : Type 0 where
  defer : DeferCall → Operation
  resume : String → ResumeCall → Operation

-- `DeferredBoundary(…)`
abbrev pub new : Boundary
new = record {
  slots = [];
  effects = record { events = []; review_objects = []; calls = []; receipts = [] };
}

unfoldable pub after : Surroundings → Operation → Boundary → Boundary
after env (defer c) b = (defer_call env c b).0
after env (resume key c) b = (resume_call env c key b).0

-- A run, and that `uuid4` gave each of its deferrals a reference that was not in use.
pub data Reachable (env : Surroundings) : Boundary → Type 0 where
  start : Reachable env new
  deferral :
      {b : Boundary} (c : DeferCall)
      → Reachable env b
      → lookup c.fresh b.slots ≡ none
      → Reachable env (after env (defer c) b)
  resumption :
      {b : Boundary} (key : String) (c : ResumeCall)
      → Reachable env b
      → Reachable env (after env (resume key c) b)
