-- ===== src/LbClient/Penalty.antt =====
-- The penalty of an unhealthy client.
use justhttp.Base.{◌+◌, ◌%◌, ◌^◌, ◌≤◌, ◌≡◌, Bool, true, false, not, ◌&&◌, arith, ltb, if◌then◌else◌}
use justhttp.LbClient.{LbState, max_penalty, dec_penalty, after_request}

-- A penalty of at most 300 stays so, whatever the request gave. A healthy request, and an unhealthy
-- one at the full penalty, count towards the total and leave the penalty; any other adds one to the
-- penalty, leaves the total, and has `decPenalty` due, which takes the penalty back.
pub after_request_lem :
    (c : LbState) (healthy : Bool)
    → c.penalty ≤ max_penalty
    → ((after_request c healthy).0.penalty ≤ max_penalty)
      × ((after_request c healthy).1 ≡ not healthy && ltb c.penalty max_penalty)
      × (after_request c healthy ≡ (
          if not healthy && ltb c.penalty max_penalty
          then (record c { penalty = c.penalty + 1 }, true)
          else (record c { total = (c.total + 1) % 2 ^ 64 }, false)))
      × (dec_penalty (record c { penalty = c.penalty + 1 }) ≡ c)
unfolding after_request
after_request_lem c healthy h = (ground arith, ground arith, ground arith, ground arith)
