-- ===== src/Helpers/Zstd.antt =====
-- include/hound/compress_string.hpp: the buffers around two calls of zstd, which is not part of the
-- repository.
use huntind.Common.{
  ℕ, ◌-◌, ◌≤◌, ◌≡◌, ap, ◌++◌, append-nil, length, length-append, length-take, length-replicate,
  take, take-append_length, drop, replicate, Option, none, some, arith, ltb, false, if◌then◌else◌,
}
use huntind.Common.Outcome.{Outcome, ok, fault, length_error, runtime_error, out_of_bounds, ◌>>=◌}
use huntind.Strings.{Text}

-- The calls, and what zstd documents of them. `compress` and `decompress` give the bytes that they
-- write to a buffer of the capacity; none stands for an error code, for an unknown content size too.
pub record Zstd : Type 0 where
  pub compress_bound : ℕ → ℕ
  pub compress : (capacity : ℕ) → Text → Option Text
  pub frame_content_size : Text → Option ℕ
  pub decompress : (capacity : ℕ) → Text → Option Text
  pub compress-bound :
      (src : Text) → (frame : Text) × (compress (compress_bound (length src)) src ≡ some frame)
  pub content_size-compress :
      (capacity : ℕ) (src frame : Text)
      → compress capacity src ≡ some frame
      → frame_content_size frame ≡ some (length src)
  pub fits-compress :
      (capacity : ℕ) (src frame : Text)
      → compress capacity src ≡ some frame
      → length frame ≤ capacity
  -- If zstd keeps its documented promises on its bound, on the room that a frame needs, on the
  -- content size of a frame and on decompressing what it compressed, then compressing a text and
  -- decompressing the result, into any two buffers, returns, without a write behind the end of a
  -- buffer, and gives the text.
  pub decompress-compress :
      (capacity : ℕ) (src frame : Text)
      → compress capacity src ≡ some frame
      → decompress (length src) frame ≡ some src

-- `dst.resize(n)`
abbrev pub resize : (n : ℕ) → Text → Text
resize n dst = take n dst ++ replicate (n - length dst) 0

-- A call writes to the front of a buffer, and behind its end if it writes more than the buffer has.
unfoldable pub write_front : (buffer written : Text) → Outcome Text
write_front buffer written =
    if ltb (length buffer) (length written)
    then fault out_of_bounds
    else ok (written ++ drop (length written) buffer)

module _ (z : Zstd) where
  -- An error code is above `max_size`, so that `resize` throws.
  unfoldable pub compress : (src dst : Text) → Outcome Text
  compress src dst =
      let capacity = z.compress_bound (length src) in
      let buffer = resize capacity dst in
      elim (z.compress capacity src) [
        | none ↦ fault length_error
        | some frame ↦ do filled ← write_front buffer frame; ok (resize (length frame) filled)
      ]

  unfoldable pub decompress : (src dst : Text) → Outcome Text
  decompress src dst = elim (z.frame_content_size src) [
    | none ↦ fault runtime_error
    | some d_buff_size ↦
        let buffer = replicate d_buff_size 0 in
        elim (z.decompress d_buff_size src) [
          | none ↦ fault length_error
          | some content ↦ do
            filled ← write_front buffer content
            ok (resize (length content) filled)
        ]
  ]

  resize-write_front :
      (buffer written : Text)
      → length written ≤ length buffer
      → write_front buffer written >>= (λ filled. ok (resize (length written) filled)) ≡ ok written
  unfolding write_front
  resize-write_front buffer written room =
      let rest = drop (length written) buffer in
      let fits : (ltb (length buffer) (length written)) ≡ false = ground arith in
      let none_left : length written - length (written ++ rest) ≡ 0 =
        omega (arith, length-append written rest) in
      rw (fits, none_left, take-append_length written rest) (ap ok (append-nil written))

  length-resize : (n : ℕ) (dst : Text) → length (resize n dst) ≡ n
  length-resize n dst = omega (
    arith,
    length-append (take n dst) (replicate (n - length dst) 0),
    length-take n dst,
    length-replicate {A = ℕ} (n - length dst) 0,
  )

  -- x
  pub decompress-compress :
      (src dst dst' : Text)
      → (frame : Text) × (compress src dst ≡ ok frame) × (decompress frame dst' ≡ ok src)
  unfolding compress decompress
  decompress-compress src dst dst' =
      let (frame, made) = z.compress-bound src in
      let capacity = z.compress_bound (length src) in
      let size = z.content_size-compress capacity src frame made in
      let back = z.decompress-compress capacity src frame made in
      let room : length frame ≤ length (resize capacity dst) =
        rw (length-resize capacity dst) (z.fits-compress capacity src frame made) in
      let room' : length src ≤ length (replicate (length src) 0) =
        omega (arith, length-replicate {A = ℕ} (length src) 0) in
      (
        frame,
        rw (compress, made) (resize-write_front (resize capacity dst) frame room),
        rw (decompress, size, back) (resize-write_front (replicate (length src) 0) src room'),
      )
