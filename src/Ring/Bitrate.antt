-- ===== src/Ring/Bitrate.antt =====
-- The bitrate that the consumer asks for over the ring: `stream_writer_requested_bitrate`,
-- `stream_writer_set_applied_bitrate` and the head of the capture loop in `main`. Bitrates are `int`
-- there; `main` lets none in that is negative, so they are numbers here.
use remy_desk.Base.{
  ℕ, ◌%◌, ◌^◌, ◌≤◌, ◌≡◌, Bool, true, false, ◌||◌, Option, none, some, arith, ltb, ◌==◌,
  if◌then◌else◌,
}
use remy_desk.Ring.{Ring}

abbrev pub min_bitrate : ℕ
min_bitrate = 100000

abbrev pub max_bitrate : ℕ
max_bitrate = 200000000

-- With no ring, and for a request out of range, the fallback.
unfoldable pub requested_bitrate : Option Ring → ℕ → ℕ
requested_bitrate none fallback = fallback
requested_bitrate (some r) fallback =
    if ltb r.requested_bitrate min_bitrate || ltb max_bitrate r.requested_bitrate
    then fallback
    else r.requested_bitrate

unfoldable pub set_applied_bitrate : Option Ring → ℕ → Option Ring
set_applied_bitrate none bitrate = none
set_applied_bitrate (some r) bitrate = some (record r { applied_bitrate = bitrate % 2 ^ 32 })

-- Where the encoder refuses the new bitrate, the request is taken back.
unfoldable pub withdraw_request : Option Ring → ℕ → Option Ring
withdraw_request none bitrate = none
withdraw_request (some r) bitrate = some (record r { requested_bitrate = bitrate % 2 ^ 32 })

-- The head of the loop, with whether `update_encoder_bitrate` would fail. The result: the ring, the
-- bitrate that the encoder runs at, and whether the encoder was called.
unfoldable pub adapt_bitrate : Bool → Option Ring → ℕ → Option Ring × ℕ × Bool
unfolding requested_bitrate set_applied_bitrate withdraw_request
adapt_bitrate update_fails ring applied =
    let requested = requested_bitrate ring applied in
    if requested == applied
    then (ring, applied, false)
    else if update_fails
    then (withdraw_request ring applied, applied, true)
    else (set_applied_bitrate ring requested, requested, true)

-- The encoder never runs at a bitrate out of the range that `main` accepts, whatever stands in the
-- ring.
pub adapt_bitrate_range :
    (update_fails : Bool) (ring : Option Ring) (applied : ℕ)
    → min_bitrate ≤ applied
    → applied ≤ max_bitrate
    → (min_bitrate ≤ (adapt_bitrate update_fails ring applied).1)
      × ((adapt_bitrate update_fails ring applied).1 ≤ max_bitrate)
unfolding adapt_bitrate
adapt_bitrate_range update_fails none applied lo hi = ground arith
adapt_bitrate_range update_fails (some r) applied lo hi = ground arith

-- A request is answered once: if the encoder runs in range, then after one round another round, with
-- the ring untouched in between, neither calls the encoder nor changes anything.
pub adapt_bitrate_settles :
    (update_fails again_fails : Bool) (ring : Option Ring) (applied : ℕ)
    → min_bitrate ≤ applied
    → applied ≤ max_bitrate
    → let (ring', applied', called) = adapt_bitrate update_fails ring applied in
      adapt_bitrate again_fails ring' applied' ≡ (ring', applied', false)
unfolding adapt_bitrate
adapt_bitrate_settles update_fails again_fails none applied lo hi = ground arith
adapt_bitrate_settles update_fails again_fails (some r) applied lo hi = ground arith

-- What the consumer reads back: in range, and with the ring's record of the bitrate in step before
-- the round, it is in step after it.
pub adapt_bitrate_published :
    (update_fails : Bool) (r r' : Ring) (applied : ℕ)
    → min_bitrate ≤ applied
    → applied ≤ max_bitrate
    → r.applied_bitrate ≡ applied
    → (adapt_bitrate update_fails (some r) applied).0 ≡ some r'
    → r'.applied_bitrate ≡ (adapt_bitrate update_fails (some r) applied).1
unfolding adapt_bitrate
adapt_bitrate_published update_fails r r' applied lo hi e h = ground arith
