-- ===== src/AnnexB.antt =====
-- `annexb_has_vcl` of native/desktop-streamer/drm_rga_mpp_stream.c: whether a packet in Annex-B form
-- holds a coded picture slice. A null pointer is a packet of no bytes.
pub mod Slices
mod Tests
use remy_desk.Base.{
  ℕ, zero, suc, ◌+◌, ◌-◌, ◌%◌, Bool, true, false, ◌&&◌, not, List, ltb, leb, ◌==◌, if◌then◌else◌,
  length, get_or,
}

-- data[i]
abbrev pub byte : List ℕ → ℕ → ℕ
byte packet i = get_or packet i 0

-- The index behind a start code at `i`, or 0.
unfoldable pub nal_index : List ℕ → ℕ → ℕ
nal_index packet i =
    if byte packet i == 0 && byte packet (i + 1) == 0 && byte packet (i + 2) == 1
    then i + 3
    else if ltb (i + 4) (length packet)
        && byte packet i == 0
        && byte packet (i + 1) == 0
        && byte packet (i + 2) == 0
        && byte packet (i + 3) == 1
    then i + 4
    else 0

-- One round of the loop: nal && nal < len, and the type `data[nal] & 0x1f` is 1 to 5.
unfoldable pub slice_at : List ℕ → ℕ → Bool
unfolding nal_index
slice_at packet i =
    let nal = nal_index packet i in
    not (nal == 0)
    && ltb nal (length packet)
    && leb 1 (byte packet nal % 32)
    && leb (byte packet nal % 32) 5

-- The rounds that are left, from index `i` on.
unfoldable pub scan : List ℕ → ℕ → ℕ → Bool
scan packet zero i = false
scan packet (suc rounds) i =
    let rest = scan packet rounds (i + 1) in if slice_at packet i then true else rest

unfoldable pub annexb_has_vcl : List ℕ → Bool
annexb_has_vcl packet = if ltb (length packet) 4 then false else scan packet (length packet - 3) 0
