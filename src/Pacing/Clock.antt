-- ===== src/Pacing/Clock.antt =====
-- The clock arithmetic against the number of nanoseconds that a time stands for.
use remy_desk.Base.{
  ℕ, zero, suc, ◌+◌, ◌-◌, ◌*◌, ◌/◌, ◌<◌, ◌≡◌, refl, ltb, if◌then◌else◌, arith, dec_lt,
}
use remy_desk.Base.Int.{pos, negsuc, sub_ℕ, ◌+ℤ◌, ◌*ℤ◌}
use remy_desk.Pacing.{
  Timespec, second, carry, add_ns, timespec_diff_ns, timespec_cmp, next_deadline,
}

abbrev pub nanoseconds : Timespec → ℕ
nanoseconds t = t.sec * second + t.nsec

-- What the kernel's clock shows.
unfoldable pub IsNormal : Timespec → Type 0
IsNormal t = t.nsec < second

carry_keeps : (rounds s n : ℕ) → nanoseconds (carry rounds s n) ≡ s * second + n
unfolding carry
carry_keeps zero s n = refl
carry_keeps (suc rounds) s n = let rest = carry_keeps rounds (s + 1) (n - second) in ground arith

carry-IsNormal : (rounds s n : ℕ) → n < (rounds + 1) * second → IsNormal (carry rounds s n)
unfolding carry IsNormal
carry-IsNormal zero s n h = omega arith
carry-IsNormal (suc rounds) s n h = elim (dec_lt n second) [
  | yes small ↦ ground arith
  | no big ↦ let rest = carry-IsNormal rounds (s + 1) (n - second) (omega arith) in ground arith
]

-- For every time and every number of nanoseconds the result of `add_ns` stands for the sum, and
-- its nanoseconds are below a second.
pub add_ns_exact :
    (t : Timespec) (ns : ℕ)
    → (nanoseconds (add_ns t ns) ≡ nanoseconds t + ns) × IsNormal (add_ns t ns)
unfolding add_ns
add_ns_exact t ns = (
  let kept = carry_keeps ((t.nsec + ns) / second) t.sec (t.nsec + ns) in omega arith,
  carry-IsNormal ((t.nsec + ns) / second) t.sec (t.nsec + ns) (omega arith),
)

-- The difference of two times, added to the earlier one, gives the later one.
pub timespec_diff_ns_exact :
    (later earlier : Timespec)
    → timespec_diff_ns later earlier ≡ sub_ℕ (nanoseconds later) (nanoseconds earlier)
unfolding timespec_diff_ns ◌*ℤ◌ ◌+ℤ◌
timespec_diff_ns_exact later earlier = ground arith

-- Of two normal times `timespec_cmp` answers by the order of the nanoseconds they stand for.
pub timespec_cmp_exact :
    (a b : Timespec)
    → IsNormal a
    → IsNormal b
    → timespec_cmp a b ≡ (
        if ltb (nanoseconds a) (nanoseconds b)
        then negsuc 0
        else if ltb (nanoseconds b) (nanoseconds a)
        then pos 1
        else pos 0)
unfolding timespec_cmp IsNormal
timespec_cmp_exact a b na nb = ground arith

-- From normal times the next deadline is normal and an interval after the last one, or now where
-- that is past: it is never behind the clock.
pub next_deadline_exact :
    (deadline now : Timespec) (interval : ℕ)
    → IsNormal now
    → (nanoseconds (next_deadline deadline interval now) ≡ (
        if ltb (nanoseconds now) (nanoseconds deadline + interval)
        then nanoseconds deadline + interval
        else nanoseconds now))
      × IsNormal (next_deadline deadline interval now)
unfolding next_deadline
next_deadline_exact deadline now interval h =
    let (kept, normal) = add_ns_exact deadline interval in
    let order = timespec_cmp_exact (add_ns deadline interval) now normal h in ground arith
