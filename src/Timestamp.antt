-- ===== src/Timestamp.antt =====
-- Protobuf timestamps and the two functions of types/health.go on them.
pub mod Order
use panorama.Prelude.{◌≤◌, ◌<◌, if◌then◌else◌}
use panorama.Prelude.Int.{
  ℤ, pos, negsuc, pos_part, neg_part, ltb_ℤ, ◌+ℤ◌, ◌-ℤ◌, ◌≤ℤ◌, ◌<ℤ◌, scale, wrap32, wrap64,
}

-- `seconds` is an int64, `nanos` an int32.
pub record Timestamp : Type 0 where
  pub seconds : ℤ
  pub nanos : ℤ

unfoldable pub subtract_timestamp : Timestamp → Timestamp → ℤ
subtract_timestamp a b =
    wrap64
      (wrap64 (scale 1000000000 (wrap64 (a.seconds -ℤ b.seconds))) +ℤ wrap32 (a.nanos -ℤ b.nanos))

unfoldable pub compare_timestamp : Timestamp → Timestamp → ℤ
compare_timestamp a b =
    if ltb_ℤ a.seconds b.seconds
    then negsuc 0
    else if ltb_ℤ b.seconds a.seconds
    then pos 1
    else wrap32 (a.nanos -ℤ b.nanos)

-- What `ptypes` accepts: the years 1 to 9999, and less than a second of nanoseconds.
pub record IsTimestamp (t : Timestamp) : Type 0 where
  pub low : neg_part t.seconds ≤ 62135596800
  pub high : pos_part t.seconds < 253402300800
  pub whole : neg_part t.nanos ≤ 0
  pub below : pos_part t.nanos < 1000000000

-- Nanoseconds since the epoch, without a bound.
unfoldable pub instant : Timestamp → ℤ
instant t = scale 1000000000 t.seconds +ℤ t.nanos
