-- ===== src/Download/Unique.antt =====
-- `uniqueTarget` of src/core/download_manager.cpp ends, with the first candidate that is free.
use remy_desk.Base.{
  ℕ, zero, suc, ◌+◌, ◌^◌, ◌≤◌, ◌<◌, ◌≡◌, ◌≢◌, refl, inl, inr, Bool, true, false, ◌||◌, some, List,
  [], ◌∷◌, arith, if◌then◌else◌, length, Bool-cases, ap, ◌∙◌, sym, holds_below,
}
use remy_desk.Base.Text.{same_bytes, same_bytes_sound, same_bytes_false}
use remy_desk.Download.Target.{candidate, exists, search_target, unique_target}
use remy_desk.Download.Suffixes.{candidate_injective}

abbrev remove : List (List ℕ) → List ℕ → List (List ℕ)
remove [] name = []
remove (other ∷ names) name =
    let rest = remove names name in if same_bytes other name then rest else other ∷ rest

length-remove_le :
    (names : List (List ℕ)) (name : List ℕ) → length (remove names name) ≤ length names
length-remove_le [] name = omega arith
length-remove_le (other ∷ names) name = let rest = length-remove_le names name in ground arith

length-remove :
    (names : List (List ℕ)) (name : List ℕ)
    → exists names name ≡ true
    → length (remove names name) < length names
length-remove [] name e = absurd (ground arith)
length-remove (other ∷ names) name e =
    let most = length-remove_le names name in
    elim (Bool-cases (same_bytes other name)) [
      | inl same ↦ rw same (omega arith)
      | inr differ ↦ let rest = length-remove names name (rw differ at e) in rw differ (omega arith)
    ]

exists-remove :
    (names : List (List ℕ)) (name wanted : List ℕ)
    → name ≢ wanted
    → exists (remove names name) wanted ≡ exists names wanted
exists-remove [] name wanted h = refl
exists-remove (other ∷ names) name wanted h =
    let rest = exists-remove names name wanted h in
    elim (Bool-cases (same_bytes other name)) [
      | inl same ↦
          let equal = same_bytes_sound other name same in
          let differs = same_bytes_false other wanted (λ e. h (sym equal ∙ e)) in
          rw (same, differs) rest
      | inr differ ↦ rw differ (ap (λ b. same_bytes other wanted || b) rest)
    ]

search_target_agree :
    (f g : ℕ → Bool) (round fuel : ℕ)
    → ((r : ℕ) → round ≤ r → r < round + fuel → f r ≡ g r)
    → search_target f round fuel ≡ search_target g round fuel
unfolding search_target
search_target_agree f g round zero h = refl
search_target_agree f g round (suc fuel) h =
    let here = h round (omega arith) (omega arith) in
    let rest =
      search_target_agree f g (suc round) fuel (λ r lo hi. h r (omega arith) (omega arith)) in
    elim (Bool-cases (g round)) [
      | inl taken ↦ rw (search_target, here, taken) rest
      | inr free ↦ rw (search_target, here, free) refl
    ]

search_target_total :
    (key : ℕ → List ℕ) (limit : ℕ)
    → ((r s : ℕ) → r < limit → s < limit → key r ≡ key s → r ≡ s)
    → (fuel round : ℕ) (names : List (List ℕ)) → length names < fuel
    → round + fuel ≤ limit
    → (r : ℕ) × (search_target (λ s. exists names (key s)) round fuel ≡ some r)
unfolding search_target
search_target_total key limit injective zero round names enough below = absurd (omega arith)
search_target_total key limit injective (suc fuel) round names enough below =
    elim (Bool-cases (exists names (key round))) [
      | inr free ↦ (round, rw (search_target, free) refl)
      | inl taken ↦
          let fewer = length-remove names (key round) taken in
          let (r, e) =
            search_target_total key limit injective fuel (suc round) (remove names (key round))
              (omega arith) (omega arith) in
          let agree =
            search_target_agree (λ s. exists names (key s))
              (λ s. exists (remove names (key round)) (key s)) (suc round) fuel
              (λ s lo hi. sym (
                exists-remove names (key round) (key s) (λ same.
                  let clash = injective round s (omega arith) (omega arith) same in
                  absurd (omega arith)))) in
          (r, rw (search_target, taken) (agree ∙ e))
    ]

search_target_first :
    (taken : ℕ → Bool) (round fuel r : ℕ)
    → holds_below taken round ≡ true
    → search_target taken round fuel ≡ some r
    → (holds_below taken r ≡ true) × (taken r ≡ false)
unfolding search_target holds_below
search_target_first taken round zero r before e = cc
search_target_first taken round (suc fuel) r before e = elim (Bool-cases (taken round)) [
  | inl here ↦ search_target_first taken (suc round) fuel r (ground arith) (ground arith)
  | inr free ↦ let same : round ≡ r = ground arith in rw (← same) (before, free)
]

-- A target: the first candidate that no file has.
pub record FirstFree (names : List (List ℕ)) (name target : List ℕ) : Type 0 where
  pub round : ℕ
  pub is_candidate : target ≡ candidate name round
  pub is_free : exists names target ≡ false
  pub earlier_taken : holds_below (λ r. exists names (candidate name r)) round ≡ true

-- In a directory of fewer than 2^64 files the search ends after at most one round more than there
-- are files, with the first candidate that none of them has.
pub unique_target-FirstFree :
    (names : List (List ℕ)) (name : List ℕ)
    → length names < 2 ^ 64
    → (target : List ℕ) × (unique_target (suc (length names)) names name ≡ some target)
      × FirstFree names name target
unfolding unique_target holds_below
unique_target-FirstFree names name few =
    let (round, e) =
      search_target_total (candidate name) (2 ^ 64) (candidate_injective name) (suc (length names))
        0 names (omega arith) (omega arith) in
    let (earlier, free) =
      search_target_first (λ r. exists names (candidate name r)) 0 (suc (length names)) round refl
        e in
    (
      candidate name round,
      rw (unique_target, e) refl,
      record { round = round; is_candidate = refl; is_free = free; earlier_taken = earlier },
    )
