-- ===== src/Files/Layout/Kept.antt =====
-- What a request to save the layout leaves, on every path, and what is read afterwards.
use remy_desk.Base.{
  ℕ, ◌+◌, ◌≤◌, ◌≡◌, ◌&&◌, Bool, true, false, Option, some, List, [], ◌∷◌, ◌++◌, length,
}
use remy_desk.Files.{FilePath, FileSystem}
use remy_desk.Files.Layout.{
  Numbers, Json, object, Layout, LayoutError, cannot_save, Checked, refused, accepted, as_items,
  Desk, SaveCalls, key_inside, write_desktop_layout, read_desktop_layout,
}
use remy_desk.Files.Layout.Usable.{Usable}
use remy_desk.Files.Layout.Steady.{KeysIncrease, Tidy}

-- No call fails.
abbrev pub all_succeed : SaveCalls → Bool
all_succeed calls = calls.opens && calls.writes && calls.renames

module _ {R : Type 0} (n : Numbers R) (fs : FileSystem) (storage_root : FilePath)
    (parts : List ℕ → FilePath) (dump : Layout R → List ℕ) (parse : List ℕ → Option (Json R)) where
  abbrev inside : List ℕ → Bool
  inside = key_inside n fs storage_root parts dump parse

  abbrev write : SaveCalls → Desk → Json R → Checked (Layout R) × Desk
  write = write_desktop_layout n fs storage_root parts dump parse

  -- The three ways in which a request ends, the last with a layout of which `P` holds.
  pub data Written (P : Layout R → Type 0) (calls : SaveCalls) (desk : Desk)
      : Checked (Layout R) × Desk → Type 0 where
    turned_down : (e : LayoutError) → Written P calls desk (refused e, desk)
    half_written :
        calls.opens ≡ true
        → calls.writes ≡ false
        → Written P calls desk (refused cannot_save, record desk { left = desk.left + 1 })
    replaced :
        (l : Layout R)
        → all_succeed calls ≡ true
        → P l
        → Written P calls desk
            (accepted l, record desk { saved = some (calls.flushed (dump l ++ (10 ∷ []))) })

  -- At most 10000 entries, each of them usable.
  abbrev pub Kept : Layout R → Type 0
  Kept l = Usable n fs storage_root parts l × (length l ≤ 10000)

  -- What the round trip needs of a layout.
  abbrev Sorted : Layout R → Type 0
  Sorted l = (Tidy n inside l × (length l ≤ 10000)) × KeysIncrease l

  -- A layout is read, and to write what was read sends it back again.
  pub record Reads (again : SaveCalls) (l : Layout R) (after : Desk) : Type 0 where
    pub reads : read_desktop_layout n fs storage_root parts dump parse after ≡ as_items l
    pub writes_back :
        (write_desktop_layout n fs storage_root parts dump parse again after
          (object (read_desktop_layout n fs storage_root parts dump parse after))).0
        ≡ accepted l
