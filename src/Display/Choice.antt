-- ===== src/Display/Choice.antt =====
-- Which display is captured.
use remy_desk.Base.{
  ℕ, ◌<◌, ◌≡◌, ◌⊎◌, inl, inr, refl, Bool, true, false, not, ◌==◌, Option, none, some, List, [], ◌∷◌,
  arith, Bool-cases, dec_lt, Option-cases,
}
use remy_desk.Display.{
  Connector, ConnectorCodes, find_encoder_for_connector, is_hdmi, crtc_of, scan_connectors,
  choose_crtc,
}

-- A connected connector with an encoder on a CRTC.
pub record Drives (get_encoder : ℕ → Option ℕ) (c : Connector) (crtc : ℕ) : Type 0 where
  pub is_connected : c.connected ≡ true
  pub by_encoder : find_encoder_for_connector get_encoder c ≡ some crtc
  pub is_crtc : 0 < crtc

module _ (codes : ConnectorCodes) (get_encoder : ℕ → Option ℕ) where
  -- What a pass over the HDMI connectors, or over the others, leaves aside.
  pub data Passed (hdmi : Bool) : Option Connector → Type 0 where
    absent : Passed hdmi none
    other_kind : {c : Connector} → is_hdmi codes c ≡ not hdmi → Passed hdmi (some c)
    unconnected : {c : Connector} → c.connected ≡ false → Passed hdmi (some c)
    no_encoder :
        {c : Connector} → find_encoder_for_connector get_encoder c ≡ none → Passed hdmi (some c)
    no_crtc :
        {c : Connector} → find_encoder_for_connector get_encoder c ≡ some 0 → Passed hdmi (some c)

  pub data AllPassed (hdmi : Bool) : List (Option Connector) → Type 0 where
    nil : AllPassed hdmi []
    cons :
        {o : Option Connector} {l : List (Option Connector)}
        → Passed hdmi o
        → AllPassed hdmi l
        → AllPassed hdmi (o ∷ l)

  -- The first connector that a pass takes drives the CRTC.
  pub data First (hdmi : Bool) : List (Option Connector) → ℕ → Type 0 where
    here :
        {c : Connector} {l : List (Option Connector)} {crtc : ℕ}
        → is_hdmi codes c ≡ hdmi
        → Drives get_encoder c crtc
        → First hdmi (some c ∷ l) crtc
    later :
        {o : Option Connector} {l : List (Option Connector)} {crtc : ℕ}
        → Passed hdmi o
        → First hdmi l crtc
        → First hdmi (o ∷ l) crtc

  crtc_of-Passed :
      (hdmi : Bool) (c : Connector) → crtc_of codes get_encoder hdmi c ≡ 0 → Passed hdmi (some c)
  unfolding crtc_of
  crtc_of-Passed hdmi c h = elim (Bool-cases c.connected) [
    | inr off ↦ unconnected off
    | inl on ↦ elim (Option-cases (find_encoder_for_connector get_encoder c)) [
      | inl e ↦ no_encoder e
      | inr (crtc, e) ↦ elim (dec_lt 0 crtc) [
        | yes set ↦ other_kind (ground arith)
        | no unset ↦ no_crtc (ground arith)
      ]
    ]
  ]

  crtc_of-Drives :
      (hdmi : Bool) (c : Connector) (crtc : ℕ)
      → crtc_of codes get_encoder hdmi c ≡ crtc
      → 0 < crtc
      → (is_hdmi codes c ≡ hdmi) × Drives get_encoder c crtc
  unfolding crtc_of
  crtc_of-Drives hdmi c crtc e h =
      (ground arith, record { is_connected = ground arith; by_encoder = ground arith; is_crtc = h })

  scan_connectors_lem :
      (hdmi : Bool) (l : List (Option Connector))
      → ((scan_connectors codes get_encoder hdmi l ≡ 0) × AllPassed hdmi l)
        ⊎ First hdmi l (scan_connectors codes get_encoder hdmi l)
  unfolding scan_connectors
  scan_connectors_lem hdmi [] = inl (refl, nil)
  scan_connectors_lem hdmi (none ∷ l) = elim (scan_connectors_lem hdmi l) [
    | inl (e, p) ↦ inl (e, cons absent p)
    | inr f ↦ inr (later absent f)
  ]
  scan_connectors_lem hdmi (some c ∷ l) = elim (dec_lt 0 (crtc_of codes get_encoder hdmi c)) [
    | yes set ↦
        let (kind, d) = crtc_of-Drives hdmi c _ refl set in
        let taken : (crtc_of codes get_encoder hdmi c == 0) ≡ false = ground arith in
        inr (rw taken (here kind d))
    | no unset ↦
        let passed = crtc_of-Passed hdmi c (omega arith) in
        let skipped : (crtc_of codes get_encoder hdmi c == 0) ≡ true = ground arith in
        rw skipped (elim (scan_connectors_lem hdmi l) [
          | inl (e, p) ↦ inl (e, cons passed p)
          | inr f ↦ inr (later passed f)
        ])
  ]

  First-crtc : {hdmi : Bool} {l : List (Option Connector)} {crtc : ℕ} → First hdmi l crtc → 0 < crtc
  First-crtc (here kind d) = d.is_crtc
  First-crtc (later p f) = First-crtc f

  -- The CRTC chosen is the one of the first HDMI connector that is connected and driven; where there
  -- is none, the one of the first other such connector; where there is none either, 0.
  pub choose_crtc-First :
      (l : List (Option Connector))
      → First true l (choose_crtc codes get_encoder l)
        ⊎ (AllPassed true l × First false l (choose_crtc codes get_encoder l))
        ⊎ (AllPassed true l × AllPassed false l × (choose_crtc codes get_encoder l ≡ 0))
  unfolding choose_crtc
  choose_crtc-First l = elim (scan_connectors_lem true l) [
    | inr f ↦
        let set = First-crtc f in
        let taken : (scan_connectors codes get_encoder true l == 0) ≡ false = ground arith in
        inl (rw taken f)
    | inl (e, p) ↦ rw e (elim (scan_connectors_lem false l) [
      | inr f ↦ inr (inl (p, f))
      | inl (unset, q) ↦ inr (inr (p, q, unset))
    ])
  ]
