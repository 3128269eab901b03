-- ===== src/Storage/Tsid.antt =====
-- lib/storage/tsid.go: the id of a time series.
pub mod RoundTrip
pub mod Order
use victoria_metrics.Base.{ℕ, ◌+◌, Bool, true, false, List, [], length, ◌==◌, ltb, if◌then◌else◌}
use victoria_metrics.Base.Outcome.{Outcome, ok, err, ◌>>=◌}
use victoria_metrics.Encoding.Fixed.{marshal_uint32, marshal_uint64}
use victoria_metrics.Storage.Fields.{take_uint32, take_uint64}

pub record Tsid : Type 0 where
  pub metric_group_id : ℕ
  pub job_id : ℕ
  pub instance_id : ℕ
  pub metric_id : ℕ

pub data TsidError : Type 0 where
  short_tsid : TsidError

unfoldable pub marshal_tsid : List ℕ → Tsid → List ℕ
marshal_tsid dst t =
    let dst1 = marshal_uint64 dst t.metric_group_id in
    let dst2 = marshal_uint32 dst1 t.job_id in
    let dst3 = marshal_uint32 dst2 t.instance_id in marshal_uint64 dst3 t.metric_id

abbrev pub zero_tsid : Tsid
zero_tsid = record { metric_group_id = 0; job_id = 0; instance_id = 0; metric_id = 0 }

-- `marshaledTSIDSize`
pub marshaled_tsid_size : ℕ
unfolding marshal_tsid
marshaled_tsid_size = length (marshal_tsid [] zero_tsid)

-- The fields, which are read once the source is known to be long enough.
pub read_tsid : List ℕ → Outcome TsidError (List ℕ × Tsid)
read_tsid src0 = do
  (g, src1) ← take_uint64 src0
  (j, src2) ← take_uint32 src1
  (i, src3) ← take_uint32 src2
  (m, src4) ← take_uint64 src3
  ok (src4, record { metric_group_id = g; job_id = j; instance_id = i; metric_id = m })

-- The rest of `src` and the id.
unfoldable pub unmarshal_tsid : List ℕ → Outcome TsidError (List ℕ × Tsid)
unfolding marshaled_tsid_size read_tsid
unmarshal_tsid src = if ltb (length src) marshaled_tsid_size then err short_tsid else read_tsid src

unfoldable pub less : Tsid → Tsid → Bool
less t b =
    if t.metric_id == b.metric_id
    then false
    else if ltb t.metric_group_id b.metric_group_id
    then true
    else if ltb b.metric_group_id t.metric_group_id
    then false
    else if ltb t.job_id b.job_id
    then true
    else if ltb b.job_id t.job_id
    then false
    else if ltb t.instance_id b.instance_id
    then true
    else if ltb b.instance_id t.instance_id
    then false
    else if ltb t.metric_id b.metric_id
    then true
    else false
