-- ===== src/Files/Layout.antt =====
-- The layout of the desktop of src/core/file_service.cpp: boundedNumber, readDesktopLayout and
-- writeDesktopLayout. JSON is read and written by a library; a double is a parameter.
pub mod Steady
pub mod Usable
pub mod Kept
pub mod Tests
use remy_desk.Base.{
  ℕ, ◌+◌, Bool, true, false, ◌&&◌, ◌||◌, not, ltb, Option, none, some, List, [], ◌∷◌, ◌++◌, length,
  if◌then◌else◌,
}
use remy_desk.Base.Text.{same_bytes}
use remy_desk.Files.{FilePath, FileSystem, clean_parts, append_path, path_contains}

-- Finite doubles: their order, and the bounds of the code, 0.0, 1.0 and 100000.0.
pub record Numbers (R : Type 0) : Type 0 where
  pub below : R → R → Bool
  pub least : R
  pub unit : R
  pub far : R

-- A JSON value where a number is expected.
pub data Value (R : Type 0) : Type 0 where
  not_numeric not_finite : Value R
  finite : R → Value R

-- The members of an entry that the service knows.
pub record Position (A : Type 0) : Type 0 where
  pub rx : Option A
  pub ry : Option A
  pub x : Option A
  pub y : Option A

pub data Item (R : Type 0) : Type 0 where
  no_object : Item R
  object_of : Position (Value R) → Item R

-- An object lists its members in the order of their keys, as the library does.
pub data Json (R : Type 0) : Type 0 where
  other : Json R
  object : List (List ℕ × Item R) → Json R

abbrev pub Layout : Type 0 → Type 0
Layout R = List (List ℕ × Position R)

pub data LayoutError : Type 0 where
  not_an_object too_many invalid_entry outside not_a_number cannot_save cannot_replace : LayoutError

pub data Checked (A : Type 0) : Type 0 where
  refused : LayoutError → Checked A
  accepted : A → Checked A

abbrev pub when_accepted : {A B : Type 0} → Checked A → (A → Checked B) → Checked B
when_accepted (refused e) f = refused e
when_accepted (accepted a) f = f a

-- `resolve` with `requireExists` false throws where this is false.
unfoldable pub stays_inside : FileSystem → FilePath → FilePath → Bool
stays_inside fs storage_root relative = elim (clean_parts [] relative) [
  | none ↦ false
  | some clean ↦
      path_contains (fs.canonical storage_root) (fs.canonical (append_path storage_root clean))
]

abbrev pub is_empty : {A : Type 0} → Position A → Bool
is_empty p = elim p.rx [
  | some _ ↦ false
  | none ↦ elim p.ry [
    | some _ ↦ false
    | none ↦ elim p.x [ some _ ↦ false | none ↦ elim p.y [ some _ ↦ false | none ↦ true ] ]
  ]
]

-- The layout as it is sent back.
abbrev pub as_value : {R : Type 0} → Option R → Option (Value R)
as_value none = none
as_value (some r) = some (finite r)

abbrev pub as_item : {R : Type 0} → Position R → Item R
as_item p =
    object_of
      (record { rx = as_value p.rx; ry = as_value p.ry; x = as_value p.x; y = as_value p.y })

abbrev pub as_items : {R : Type 0} → Layout R → List (List ℕ × Item R)
as_items [] = []
as_items ((key, p) ∷ layout) = (key, as_item p) ∷ as_items layout

-- The file of the layout, and how many temporary files stay beside it.
pub record Desk : Type 0 where
  pub saved : Option (List ℕ)
  pub left : ℕ

-- The calls on the files: does the stream open, is it good behind the text, what reaches the file
-- when it is closed, and does the rename succeed.
pub record SaveCalls : Type 0 where
  pub opens : Bool
  pub writes : Bool
  pub flushed : List ℕ → List ℕ
  pub renames : Bool

module _ {R : Type 0} (n : Numbers R) where
  -- std::clamp
  unfoldable pub clamp : R → R → R → R
  clamp r low high = if n.below r low then low else if n.below high r then high else r

  unfoldable pub bounded_number : Value R → R → R → Checked R
  bounded_number not_numeric low high = refused not_a_number
  bounded_number not_finite low high = refused not_a_number
  bounded_number (finite r) low high = accepted (clamp r low high)

  unfoldable pub coordinate : Option (Value R) → R → R → Checked (Option R)
  coordinate none low high = accepted none
  coordinate (some v) low high = when_accepted (bounded_number v low high) (λ r. accepted (some r))

  unfoldable pub position_of : Position (Value R) → Checked (Position R)
  position_of p = when_accepted (coordinate p.rx n.least n.unit) λ rx.
      when_accepted (coordinate p.ry n.least n.unit) λ ry.
        when_accepted (coordinate p.x n.least n.far) λ x.
          when_accepted (coordinate p.y n.least n.far)
            λ y. accepted (record { rx = rx; ry = ry; x = x; y = y })

  module _ (inside : List ℕ → Bool) where
    abbrev pub is_bad_key : List ℕ → Bool
    is_bad_key key = same_bytes key [] || ltb 4096 (length key)

    unfoldable pub entry_of : List ℕ → Item R → Checked (Position R)
    entry_of key no_object = refused invalid_entry
    entry_of key (object_of p) =
        if is_bad_key key
        then refused invalid_entry
        else if not (inside key)
        then refused outside
        else position_of p

    -- The loop over the entries; an entry without a coordinate is left out.
    unfoldable pub normalize : List (List ℕ × Item R) → Checked (Layout R)
    normalize [] = accepted []
    normalize ((key, item) ∷ items) =
        let rest = normalize items in
        when_accepted (entry_of key item) λ p.
          when_accepted rest λ layout. accepted (if is_empty p then layout else (key, p) ∷ layout)

module _ {R : Type 0} (n : Numbers R) (fs : FileSystem) (storage_root : FilePath)
    (parts : List ℕ → FilePath) (dump : Layout R → List ℕ) (parse : List ℕ → Option (Json R)) where
  abbrev pub key_inside : List ℕ → Bool
  key_inside key = stays_inside fs storage_root (parts key)

  unfoldable pub checked_layout : Json R → Checked (Layout R)
  checked_layout other = refused not_an_object
  checked_layout (object items) =
      if ltb 10000 (length items) then refused too_many else normalize n key_inside items

  -- The stream is asked for an error before it is closed.
  unfoldable pub save_layout : SaveCalls → Desk → Layout R → Checked (Layout R) × Desk
  save_layout calls desk layout =
      if not calls.opens
      then (refused cannot_save, desk)
      else if not calls.writes
      then (refused cannot_save, record desk { left = desk.left + 1 })
      else if not calls.renames
      then (refused cannot_replace, desk)
      else (
        accepted layout,
        record desk { saved = some (calls.flushed (dump layout ++ (10 ∷ []))) },
      )

  unfoldable pub save_checked : SaveCalls → Desk → Checked (Layout R) → Checked (Layout R) × Desk
  save_checked calls desk (refused e) = (refused e, desk)
  save_checked calls desk (accepted layout) = save_layout calls desk layout

  unfoldable pub write_desktop_layout : SaveCalls → Desk → Json R → Checked (Layout R) × Desk
  write_desktop_layout calls desk json = save_checked calls desk (checked_layout json)

  abbrev pub json_items : Option (Json R) → List (List ℕ × Item R)
  json_items none = []
  json_items (some other) = []
  json_items (some (object items)) = items

  abbrev pub text_items : Option (List ℕ) → List (List ℕ × Item R)
  text_items none = []
  text_items (some text) = json_items (parse text)

  unfoldable pub read_desktop_layout : Desk → List (List ℕ × Item R)
  read_desktop_layout desk = text_items desk.saved
