-- ===== src/NpuCoreMask/Bounds.antt =====
-- Where the choice of a core is within the bounds of its array.
use infer_server.Base.{zero, suc, ◌≡◌, none, arith, ◌↔◌}
use infer_server.Base.Int.{ℤ, pos, negsuc, ◌≤ℤ◌, ◌<ℤ◌}
use infer_server.NpuCoreMask.{from_worker_id}

-- The choice leaves the array exactly for the workers from number 3 on, when the number of cores
-- that is given exceeds them: the test is against that number, before it is capped at 3.
pub from_worker_id-none :
    (worker_id num_cores : ℤ)
    → (from_worker_id worker_id num_cores ≡ none)
      ↔ ((pos 3 ≤ℤ worker_id) × (worker_id <ℤ num_cores))
unfolding from_worker_id
from_worker_id-none (negsuc w) n = ground arith
from_worker_id-none (pos zero) n = ground arith
from_worker_id-none (pos (suc zero)) n = ground arith
from_worker_id-none (pos (suc (suc zero))) n = ground arith
from_worker_id-none (pos (suc (suc (suc w)))) n = ground arith
