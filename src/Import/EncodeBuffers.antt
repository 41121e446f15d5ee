-- ===== src/Import/EncodeBuffers.antt =====
-- The encoder's input buffers: `init_encode_buffers` and `release_encode_buffers`.
use remy_desk.Base.{
  ℕ, ◌≡◌, refl, Bool-cases, inl, inr, Bool, true, false, Option, none, some, List, [], ◌∷◌, ◌++◌,
  if◌then◌else◌, arith,
}
use remy_desk.Base.Int.{ℤ, pos, negsuc}
use remy_desk.Import.{Resource, mpp_buffer, Action, took, gave, wrap_rga_dma_fd, release_rga_handle}
use remy_desk.Import.Balance.{taken, given, taken-append, given-append}

pub record EncodeBuffer : Type 0 where
  pub mpp_buf : Option ℕ
  pub dma_fd : ℤ
  pub rga_handle : ℕ

-- For one buffer, what mpp_buffer_get (`none` is an error or no buffer), mpp_buffer_get_fd and
-- importbuffer_fd answer.
pub record BufferCalls : Type 0 where
  pub get : Option ℕ
  pub get_fd : ℤ
  pub imported : ℕ

abbrev pub no_encode_buffer : EncodeBuffer
no_encode_buffer = record { mpp_buf = none; dma_fd = negsuc 0; rga_handle = 0 }

-- One round of the loop. A descriptor that is not below 0 is a number.
unfoldable pub init_encode_buffer : Bool → BufferCalls → Bool × EncodeBuffer × List Action
init_encode_buffer handle_api c = elim c.get [
  | none ↦ (false, no_encode_buffer, [])
  | some b ↦ elim c.get_fd [
    | negsuc n ↦ (
      false,
      record { mpp_buf = some b; dma_fd = negsuc n; rga_handle = 0 },
      took (mpp_buffer b) ∷ [],
    )
    | pos n ↦ elim (wrap_rga_dma_fd handle_api c.imported n) [
      | none ↦ (
        false,
        record { mpp_buf = some b; dma_fd = pos n; rga_handle = 0 },
        took (mpp_buffer b) ∷ [],
      )
      | some (handle, l) ↦ (
        true,
        record { mpp_buf = some b; dma_fd = pos n; rga_handle = handle },
        took (mpp_buffer b) ∷ l,
      )
    ]
  ]
]

-- Whether it returns 0, the buffers that were begun, and what was taken.
unfoldable pub init_encode_buffers :
    Bool → List BufferCalls → Bool × List EncodeBuffer × List Action
init_encode_buffers handle_api [] = (true, [], [])
init_encode_buffers handle_api (c ∷ later) =
    let (ok, b, l) = init_encode_buffer handle_api c in
    let (all_ok, bs, more) = init_encode_buffers handle_api later in
    if ok then (all_ok, b ∷ bs, l ++ more) else (false, b ∷ [], l)

unfoldable pub put_buffer : Option ℕ → List Action
put_buffer none = []
put_buffer (some b) = gave (mpp_buffer b) ∷ []

unfoldable pub release_encode_buffers : Bool → List EncodeBuffer → List Action
release_encode_buffers handle_api [] = []
release_encode_buffers handle_api (b ∷ later) =
    (release_rga_handle handle_api b.rga_handle ++ put_buffer b.mpp_buf)
    ++ release_encode_buffers handle_api later

module _ (f : Resource → Bool) (handle_api : Bool) where
  -- One buffer: what is taken for it is what its release gives back.
  init_one :
      (c : BufferCalls)
      → let (ok, b, l) = init_encode_buffer handle_api c in
        (taken f l ≡ given f (release_rga_handle handle_api b.rga_handle ++ put_buffer b.mpp_buf))
        × (given f l ≡ 0)
  unfolding init_encode_buffer release_rga_handle put_buffer wrap_rga_dma_fd taken given
  init_one c = (ground arith, ground arith)

  -- Whether or not the set-up of the buffers succeeds, it gives nothing back itself, and the release
  -- of the buffers that it began gives back all that it took.
  pub init_encode_buffers_balanced :
      (calls : List BufferCalls)
      → let (ok, buffers, l) = init_encode_buffers handle_api calls in
        (taken f l ≡ given f (release_encode_buffers handle_api buffers)) × (given f l ≡ 0)
  unfolding init_encode_buffers release_encode_buffers
  init_encode_buffers_balanced [] = unfold taken in unfold given in (refl, refl)
  init_encode_buffers_balanced (c ∷ later) =
      let (_, b, l) = init_encode_buffer handle_api c in
      let (_, bs, more) = init_encode_buffers handle_api later in
      let (one, quiet) = init_one c in
      let (rest, none_given) = init_encode_buffers_balanced later in
      let first = release_rga_handle handle_api b.rga_handle ++ put_buffer b.mpp_buf in
      let taken_all = taken-append f l more in
      let given_all = given-append f l more in
      let back = given-append f first (release_encode_buffers handle_api bs) in
      let back_one = given-append f first [] in
      let nothing : given f [] ≡ 0 = unfold given in refl in
      elim (Bool-cases (init_encode_buffer handle_api c).0) [
        | inl ok ↦ rw (init_encode_buffers, ok) (omega arith, omega arith)
        | inr failed ↦ rw (init_encode_buffers, failed) (omega arith, omega arith)
      ]

  -- Their release takes nothing.
  pub release_encode_buffers_quiet :
      (buffers : List EncodeBuffer) → taken f (release_encode_buffers handle_api buffers) ≡ 0
  unfolding release_encode_buffers taken
  release_encode_buffers_quiet [] = refl
  release_encode_buffers_quiet (b ∷ later) =
      let first = release_rga_handle handle_api b.rga_handle ++ put_buffer b.mpp_buf in
      let both = taken-append f first (release_encode_buffers handle_api later) in
      let rest = release_encode_buffers_quiet later in
      let one : taken f first ≡ 0 =
        unfold release_rga_handle in unfold put_buffer in ground arith in
      omega arith
