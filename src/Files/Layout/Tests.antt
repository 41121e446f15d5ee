-- ===== src/Files/Layout/Tests.antt =====
-- Witnesses and tests of the layout: numbers are natural, and a small code stands for the library.
use remy_desk.Base.{
  ℕ, suc, zero, ◌≡◌, refl, true, false, ltb, Option, none, some, List, [], ◌∷◌, ◌++◌, arith,
}
use remy_desk.Base.Text.{codes}
use remy_desk.Files.{FilePath, clean_parts, append_path, without_slash, path_contains}
use remy_desk.Files.Tests.{plain_system, storage}
use remy_desk.Files.Layout.{
  Numbers, Value, finite, Item, object_of, Json, object, Layout, accepted, Desk, SaveCalls,
  stays_inside, write_desktop_layout, read_desktop_layout, checked_layout, save_layout,
  save_checked, normalize, entry_of, position_of, coordinate, bounded_number, clamp,
}
use remy_desk.Files.Layout.Steady.{IsOrder}
use remy_desk.Files.Layout.Kept.{Kept}

abbrev naturals : Numbers ℕ
naturals = record { below = ltb; least = 0; unit = 1; far = 100000 }

below_self : (r : ℕ) → ltb r r ≡ false
below_self r = ground arith

abbrev naturals-IsOrder : IsOrder naturals
naturals-IsOrder = record { irreflexive = below_self; unit_above = refl; far_above = refl }

abbrev number_code : Option ℕ → ℕ
number_code none = 0
number_code (some r) = suc r

abbrev number_of : ℕ → Option (Value ℕ)
number_of zero = none
number_of (suc r) = some (finite r)

abbrev key_code : List ℕ → List ℕ → List ℕ
key_code [] rest = 0 ∷ rest
key_code (b ∷ key) rest = suc b ∷ key_code key rest

abbrev print : Layout ℕ → List ℕ
print [] = []
print ((key, p) ∷ layout) =
    0
    ∷ key_code key
        (number_code p.rx ∷ number_code p.ry ∷ number_code p.x ∷ number_code p.y ∷ print layout)

abbrev entry : List ℕ → ℕ → ℕ → ℕ → ℕ → List ℕ × Item ℕ
entry key a b c d = (
  key,
  object_of (record { rx = number_of a; ry = number_of b; x = number_of c; y = number_of d }),
)

abbrev scan : Option (List ℕ) → List ℕ → List (List ℕ × Item ℕ)
scan none (zero ∷ text) = scan (some []) text
scan (some key) (zero ∷ a ∷ b ∷ c ∷ d ∷ text) = entry key a b c d ∷ scan none text
scan (some key) (suc b ∷ text) = scan (some (key ++ (b ∷ []))) text
scan _ _ = []

abbrev parse : List ℕ → Option (Json ℕ)
parse text = some (object (scan none text))

-- A place past the right edge, and an entry that is left out.
abbrev sent_items : List (List ℕ × Item ℕ)
sent_items =
    (
      codes "a",
      object_of (record { rx = some (finite 7); ry = some (finite 0); x = none; y = none }),
    )
    ∷ (codes "b", object_of (record { rx = none; ry = none; x = none; y = none }))
    ∷ []

abbrev request : Json ℕ
request = object sent_items

abbrev kept : Layout ℕ
kept = (codes "a", record { rx = some 1; ry = some 0; x = none; y = none }) ∷ []

abbrev calls : SaveCalls
calls = record { opens = true; writes = true; flushed = λ text. text; renames = true }

abbrev before : Desk
before = record { saved = none; left = 0 }

abbrev key_parts : List ℕ → FilePath
key_parts key = key ∷ []

-- With a full disk a short text fails only when the file is closed: the layout that was there is
-- gone, and the reply says that the new one was saved.
abbrev full_disk : SaveCalls
full_disk = record calls { flushed = λ text. [] }

abbrev older : Desk
older = record { saved = some (print kept ++ (10 ∷ [])); left = 0 }

lost_layout :
    ((write_desktop_layout naturals plain_system storage key_parts print parse full_disk older
        request).0
      ≡ accepted kept)
    × (read_desktop_layout naturals plain_system storage key_parts print parse
          (write_desktop_layout naturals plain_system storage key_parts print parse full_disk older
            request).1
        ≡ [])
unfolding write_desktop_layout checked_layout save_checked save_layout normalize entry_of
    position_of coordinate bounded_number clamp stays_inside clean_parts append_path without_slash
    path_contains read_desktop_layout
lost_layout = (refl, refl)
