-- ===== src/Storage/Tsid/RoundTrip.antt =====
-- Reading an id back.
use victoria_metrics.Base.{ℕ, ◌+◌, ◌≡◌, refl, arith, List, [], ◌++◌, length, ltb, le→ltb, false}
use victoria_metrics.Base.Outcome.{ok}
use victoria_metrics.Base.Words.{IsU32, IsU64}
use victoria_metrics.Encoding.Fixed.{marshal_uint32, marshal_uint64}
use victoria_metrics.Storage.Fields.{take-uint32, take-uint64, then_ok, push_uint32, push_uint64}
use victoria_metrics.Storage.Fields.{length-uint32, length-uint64}
use victoria_metrics.Storage.Tsid.{
  Tsid, marshal_tsid, unmarshal_tsid, read_tsid, marshaled_tsid_size,
}

-- Fields of their widths.
abbrev pub IsTsid : Tsid → Type 0
IsTsid t = IsU64 t.metric_group_id × IsU32 t.job_id × IsU32 t.instance_id × IsU64 t.metric_id

abbrev pub tsid_bytes : Tsid → List ℕ → List ℕ
tsid_bytes t rest =
    marshal_uint64 [] t.metric_group_id
    ++ (marshal_uint32 [] t.job_id
        ++ (marshal_uint32 [] t.instance_id ++ (marshal_uint64 [] t.metric_id ++ rest)))

pub push_tsid :
    (dst : List ℕ) (t : Tsid) (rest : List ℕ)
    → marshal_tsid dst t ++ rest ≡ dst ++ tsid_bytes t rest
unfolding marshal_tsid
push_tsid dst t rest = simp (push_uint64, push_uint32)

pub length-tsid : (t : Tsid) (rest : List ℕ) → length (tsid_bytes t rest) ≡ 24 + length rest
length-tsid t rest = omega (
  arith,
  length-uint64 t.metric_group_id (
      marshal_uint32 [] t.job_id
      ++ (marshal_uint32 [] t.instance_id ++ (marshal_uint64 [] t.metric_id ++ rest))),
  length-uint32 t.job_id
      (marshal_uint32 [] t.instance_id ++ (marshal_uint64 [] t.metric_id ++ rest)),
  length-uint32 t.instance_id (marshal_uint64 [] t.metric_id ++ rest),
  length-uint64 t.metric_id rest,
)

read_tsid_bytes :
    (t : Tsid) (rest : List ℕ) → IsTsid t → read_tsid (tsid_bytes t rest) ≡ ok (rest, t)
unfolding read_tsid
read_tsid_bytes t rest (hg, hj, hi, hm) = then_ok _ (take-uint64 t.metric_group_id _ hg) (
    then_ok _ (take-uint32 t.job_id _ hj) (
      then_ok _ (take-uint32 t.instance_id _ hi)
        (then_ok _ (take-uint64 t.metric_id rest hm) refl)))

size_lem : marshaled_tsid_size ≡ 24
unfolding marshaled_tsid_size marshal_tsid marshal_uint64 marshal_uint32
size_lem = refl

long_enough :
    (t : Tsid) (rest : List ℕ) → ltb (length (tsid_bytes t rest)) marshaled_tsid_size ≡ false
long_enough t rest = le→ltb _ _ (omega (arith, size_lem, length-tsid t rest))

pub unmarshal-tsid_bytes :
    (t : Tsid) (rest : List ℕ) → IsTsid t → unmarshal_tsid (tsid_bytes t rest) ≡ ok (rest, t)
unfolding unmarshal_tsid
unmarshal-tsid_bytes t rest h = rw (long_enough t rest) (read_tsid_bytes t rest h)

-- `Unmarshal` reads from the bytes of `Marshal` the id it wrote, whatever follows, when its fields are
-- within their widths.
pub unmarshal-marshal_tsid :
    (t : Tsid) (rest : List ℕ)
    → IsTsid t
    → unmarshal_tsid (marshal_tsid [] t ++ rest) ≡ ok (rest, t)
unmarshal-marshal_tsid t rest h = rw (push_tsid [] t rest) (unmarshal-tsid_bytes t rest h)
