-- ===== src/Storage/Tsid/Order.antt =====
-- `Less` on ids: what makes it an order.
use victoria_metrics.Base.{◌≡◌, arith, ap, true, false}
use victoria_metrics.Storage.Tsid.{Tsid, less}

pub less_irreflexive : (t : Tsid) → less t t ≡ false
unfolding less
less_irreflexive t = ground arith

-- `Less` is transitive where a MetricID belongs to one id only: `t.Less(b)` and `b.Less(c)` give
-- `t.Less(c)` if `t` and `c` are one id or have distinct MetricIDs.
pub less_trans :
    (t b c : Tsid)
    → (t.metric_id ≡ c.metric_id → t ≡ c)
    → less t b ≡ true
    → less b c ≡ true
    → less t c ≡ true
unfolding less
less_trans t b c one h k = ground (
  arith,
  λ (e : t.metric_id ≡ c.metric_id). ap Tsid.metric_group_id (one e),
  λ (e : t.metric_id ≡ c.metric_id). ap Tsid.job_id (one e),
  λ (e : t.metric_id ≡ c.metric_id). ap Tsid.instance_id (one e),
)

-- Two ids of which neither is less have one MetricID.
pub less_total : (t b : Tsid) → less t b ≡ false → less b t ≡ false → t.metric_id ≡ b.metric_id
unfolding less
less_total t b h k = ground arith
