-- ===== src/Timestamp/Order.antt =====
-- `CompareTimestamp` and `SubtractTimestamp` against the instants that the timestamps name.
use panorama.Prelude.{◌≡◌, ◌↔◌, arith, ◌<◌, ◌+◌, ◌*◌}
use panorama.Prelude.Int.{
  pos, pos_part, neg_part, ◌+ℤ◌, ◌-ℤ◌, ◌<ℤ◌, scale, wrap32, wrap64, InInt32, wrap32_of_InInt32,
  wrap64_of_InInt64, int_laws, parts_apart, -ℤ_parts,
}
use panorama.Timestamp.{Timestamp, IsTimestamp, subtract_timestamp, compare_timestamp, instant}

nanos_fit : (a b : Timestamp) → IsTimestamp a → IsTimestamp b → InInt32 (a.nanos -ℤ b.nanos)
nanos_fit a b va vb = omega (int_laws, parts_apart (a.nanos -ℤ b.nanos))

instant_parts :
    (a : Timestamp)
    → pos_part (instant a) + 1000000000 * neg_part a.seconds + neg_part a.nanos
      ≡ neg_part (instant a) + 1000000000 * pos_part a.seconds + pos_part a.nanos
unfolding instant
instant_parts a = omega int_laws

-- For valid timestamps `CompareTimestamp` is negative exactly if the first instant is earlier.
pub compare_timestamp-lt_iff :
    (a b : Timestamp)
    → IsTimestamp a
    → IsTimestamp b
    → (compare_timestamp a b <ℤ pos 0) ↔ (instant a <ℤ instant b)
unfolding compare_timestamp
compare_timestamp-lt_iff a b va vb = rw (wrap32_of_InInt32 _ (nanos_fit a b va vb)) (
    ground (
      arith,
      instant_parts a,
      instant_parts b,
      -ℤ_parts a.nanos b.nanos,
      parts_apart (a.nanos -ℤ b.nanos),
    ))

-- For valid timestamps less than 292 years apart `SubtractTimestamp` is the difference of the
-- instants, with no wrap-around.
pub subtract_timestamp-instant :
    (a b : Timestamp)
    → IsTimestamp a
    → IsTimestamp b
    → pos_part (a.seconds -ℤ b.seconds) < 9223372035
    → neg_part (a.seconds -ℤ b.seconds) < 9223372035
    → subtract_timestamp a b ≡ instant a -ℤ instant b
unfolding subtract_timestamp
subtract_timestamp-instant a b va vb high low =
    let ds = a.seconds -ℤ b.seconds in
    let dn = a.nanos -ℤ b.nanos in
    let es : wrap64 ds ≡ ds = wrap64_of_InInt64 ds (omega int_laws) in
    let en : wrap32 dn ≡ dn = wrap32_of_InInt32 dn (nanos_fit a b va vb) in
    let e : wrap64 (scale 1000000000 ds) ≡ scale 1000000000 ds =
      wrap64_of_InInt64 _ (omega (int_laws, parts_apart (scale 1000000000 ds), parts_apart ds)) in
    let f : wrap64 (scale 1000000000 ds +ℤ dn) ≡ scale 1000000000 ds +ℤ dn =
      wrap64_of_InInt64 _
        (omega (int_laws, parts_apart (scale 1000000000 ds +ℤ dn), nanos_fit a b va vb)) in
    rw (es, en, e, f) (omega (int_laws, instant_parts a, instant_parts b))
