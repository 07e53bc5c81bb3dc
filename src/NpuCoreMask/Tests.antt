-- ===== src/NpuCoreMask/Tests.antt =====
-- The fourth worker of four cores.
use infer_server.Base.{◌≡◌, none, ◌↔◌}
use infer_server.Base.Int.{pos, ◌≤ℤ◌, ◌<ℤ◌}
use infer_server.NpuCoreMask.{from_worker_id}
use infer_server.NpuCoreMask.Bounds.{from_worker_id-none}

from_worker_id-none_example :
    (from_worker_id (pos 3) (pos 4) ≡ none) ↔ ((pos 3 ≤ℤ pos 3) × (pos 3 <ℤ pos 4))
from_worker_id-none_example = from_worker_id-none (pos 3) (pos 4)
