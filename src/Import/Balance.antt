-- ===== src/Import/Balance.antt =====
-- What the imports take, hold and give back, resource by resource.
use remy_desk.Base.{
  ℕ, ◌+◌, ◌≡◌, ap, ◌⊎◌, refl, Bool, true, false, ◌==◌, ◌||◌, Option, none, some, List, [], ◌∷◌,
  ◌++◌, if◌then◌else◌, arith, Bool-cases, Option-cases, not, inl, inr,
}
use remy_desk.Import.{
  CaptureFb, Resource, Action, took, gave, wrap_rga_dma_fd, release_rga_handle, give_fd, give_map,
}
use remy_desk.Import.Formats.{rga_format_for_drm, bytes_per_pixel_for_drm}
use remy_desk.Import.Source.{
  SrcImport, no_import, ImportCalls, release_src_import, is_current, map_source, import_exported,
  ensure_src_import, ensure_cursor_import,
}
use remy_desk.Import.Staging.{
  no_buffer, Created, DumbCalls, give_dumb, release_dumb_rgb_buffer, import_dumb,
  create_dumb_rgb_buffer,
}

-- The kernel made a buffer with a handle, or none.
abbrev pub has_handle : Option Created → Bool
has_handle none = true
has_handle (some made) = not (made.handle == 0)

-- The resources of a kind `f` that are taken, and given back.
module _ (f : Resource → Bool) where
  unfoldable pub taken : List Action → ℕ
  taken [] = 0
  taken (took r ∷ l) = (if f r then 1 else 0) + taken l
  taken (gave r ∷ l) = taken l

  unfoldable pub given : List Action → ℕ
  given [] = 0
  given (took r ∷ l) = given l
  given (gave r ∷ l) = (if f r then 1 else 0) + given l

  pub taken-append : (l k : List Action) → taken (l ++ k) ≡ taken l + taken k
  unfolding taken
  taken-append [] k = omega arith
  taken-append (took r ∷ l) k = let rest = taken-append l k in omega arith
  taken-append (gave r ∷ l) k = taken-append l k

  pub given-append : (l k : List Action) → given (l ++ k) ≡ given l + given k
  unfolding given
  given-append [] k = omega arith
  given-append (gave r ∷ l) k = let rest = given-append l k in omega arith
  given-append (took r ∷ l) k = given-append l k

  -- What an import holds of that kind: what its release gives back.
  pub src_held : Bool → SrcImport → ℕ
  src_held handle_api src = given (release_src_import handle_api src).1

  -- Nothing is held by an import of nothing, and what is wrapped can be given back.
  map_source_balanced :
      (c : ImportCalls) (fb : CaptureFb) (src : SrcImport)
      → src.map ≡ none
      → let (ok, src', l) = map_source c fb src in
        src_held c.handle_api src + taken l ≡ src_held c.handle_api src' + given l
  unfolding map_source src_held release_src_import release_rga_handle give_map give_fd given taken
  map_source_balanced c fb src e = ground arith

  import_exported_balanced :
      (c : ImportCalls) (cpu_stage xrgb_as_alpha : Bool) (fb : CaptureFb) (dma_fd : ℕ)
      → let (ok, src, l) = import_exported c cpu_stage xrgb_as_alpha fb dma_fd in
        taken l ≡ src_held c.handle_api src + given l
  unfolding import_exported map_source src_held release_src_import release_rga_handle give_map
      give_fd given taken wrap_rga_dma_fd
  import_exported_balanced c cpu_stage xrgb_as_alpha fb dma_fd = ground arith

  append_balanced :
      (l k : List Action) (held : ℕ)
      → taken l ≡ 0
      → taken k ≡ held + given k
      → given l + taken (l ++ k) ≡ held + given (l ++ k)
  append_balanced l k held none_taken e =
      let t = taken-append l k in let g = given-append l k in omega arith

  pub release_takes_nothing :
      (handle_api : Bool) (src : SrcImport) → taken (release_src_import handle_api src).1 ≡ 0
  unfolding release_src_import release_rga_handle give_map give_fd taken
  release_takes_nothing handle_api src = ground arith

  pub held_nothing : (handle_api : Bool) → src_held handle_api no_import ≡ 0
  unfolding src_held release_src_import release_rga_handle give_map give_fd given
  held_nothing handle_api = ground arith

  pub held_released :
      (handle_api : Bool) (src : SrcImport)
      → src_held handle_api src ≡ given (release_src_import handle_api src).1
  unfolding src_held
  held_released handle_api src = refl

  -- A release, and an import behind it.
  replace_balanced :
      (c : ImportCalls) (cpu_stage xrgb_as_alpha : Bool) (src : SrcImport) (fb : CaptureFb) (n : ℕ)
      → let (ok, src', l) = import_exported c cpu_stage xrgb_as_alpha fb n in
        src_held c.handle_api src + taken ((release_src_import c.handle_api src).1 ++ l)
        ≡ src_held c.handle_api src' + given ((release_src_import c.handle_api src).1 ++ l)
  replace_balanced c cpu_stage xrgb_as_alpha src fb n =
      let quiet = release_takes_nothing c.handle_api src in
      let held = held_released c.handle_api src in
      let more = import_exported_balanced c cpu_stage xrgb_as_alpha fb n in
      rw held (append_balanced _ _ _ quiet more)

  -- A release, and nothing behind it.
  drop_balanced :
      (handle_api : Bool) (src : SrcImport)
      → let (empty, l) = release_src_import handle_api src in
        src_held handle_api src + taken l ≡ src_held handle_api empty + given l
  unfolding src_held release_src_import release_rga_handle give_map give_fd taken given
  drop_balanced handle_api src = ground arith

  nothing_done : taken [] ≡ given []
  unfolding taken given
  nothing_done = refl

  -- On every path of `ensure_src_import`, errors included, and for every kind of resource: what the
  -- import held before and what the call takes is what it holds after and what the call gives back.
  pub ensure_src_import_balanced :
      (c : ImportCalls) (cpu_stage xrgb_as_alpha : Bool) (src : SrcImport) (fb : CaptureFb)
      → let (ok, src', l) = ensure_src_import c cpu_stage xrgb_as_alpha src fb in
        src_held c.handle_api src + taken l ≡ src_held c.handle_api src' + given l
  unfolding ensure_src_import
  ensure_src_import_balanced c cpu_stage xrgb_as_alpha src fb =
      let dropped = drop_balanced c.handle_api src in
      elim (Bool-cases (is_current src fb)) [
        | inl same ↦
            rw (ensure_src_import, same) (ap (λ n. src_held c.handle_api src + n) nothing_done)
        | inr old ↦
            elim (Bool-cases (
              rga_format_for_drm c.codes fb.fourcc xrgb_as_alpha == 0
              || bytes_per_pixel_for_drm c.codes fb.fourcc == 0)) [
                | inl bad ↦ rw (ensure_src_import, old, bad) dropped
                | inr fine ↦ elim (Option-cases c.exported) [
                  | inl failed ↦ rw (ensure_src_import, old, fine, failed) dropped
                  | inr (n, at) ↦
                      rw (ensure_src_import, old, fine, at)
                        (replace_balanced c cpu_stage xrgb_as_alpha src fb n)
                ]
              ]
      ]

  -- The same of `ensure_cursor_import`, with a cursor and with none.
  pub ensure_cursor_import_balanced :
      (c : ImportCalls) (active : Bool) (cursor : SrcImport) (state : CaptureFb)
      → let (ok, cursor', l) = ensure_cursor_import c active cursor state in
        src_held c.handle_api cursor + taken l ≡ src_held c.handle_api cursor' + given l
  unfolding ensure_cursor_import
  ensure_cursor_import_balanced c active cursor state =
      let dropped = drop_balanced c.handle_api cursor in
      let kept = ensure_src_import_balanced c false false cursor (record state { modifier = 0 }) in
      ground arith

  -- A call of `create_dumb_rgb_buffer` that fails holds nothing and has given back what it took; one
  -- that returns 0 holds what it took, and `release_dumb_rgb_buffer` gives it back. The kernel's
  -- handles are not 0.
  pub create_dumb_rgb_buffer_balanced :
      (c : DumbCalls) (width height rga_format bytes_per_pixel : ℕ)
      → has_handle c.created ≡ true
      → let (ok, buf, l) = create_dumb_rgb_buffer c width height rga_format bytes_per_pixel in
        (taken l ≡ given (release_dumb_rgb_buffer c.handle_api buf).1 + given l)
        × ((ok ≡ true) ⊎ (buf ≡ no_buffer))
  unfolding import_dumb create_dumb_rgb_buffer release_dumb_rgb_buffer release_rga_handle give_map
      give_fd give_dumb given taken wrap_rga_dma_fd
  create_dumb_rgb_buffer_balanced c w h fm bpp set = (ground arith, ground arith)
