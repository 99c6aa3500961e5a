-- ===== src/Helpers/Examples.antt =====
-- A compression that stores its text, a timer, and the theorems of the helpers on them.
use huntind.Common.{
  ℕ, ◌+◌, ◌^◌, ◌≤◌, ◌<◌, ◌≡◌, ◌⊎◌, inl, inr, refl, ap, sym, ◌∙◌, [], length, Option, none, some,
  ◌==◌, if◌then◌else◌, ltb, false, Bool-cases, arith,
}
use huntind.Common.Outcome.{ok, fault, length_error}
use huntind.Strings.{Text, codes}
use huntind.Helpers.Zstd.{Zstd, compress, decompress, decompress-compress}
use huntind.Helpers.Timer.{
  Timer, milliseconds, untimed, new_task_timer, destroy_timer, destroy_timer-branches,
}

some_of : {a b : Text} → some a ≡ some b → a ≡ b
some_of h = cc

abbrev store : (capacity : ℕ) → Text → Option Text
store capacity src = if ltb capacity (length src) then none else some src

store-fits : (capacity : ℕ) (src : Text) → length src ≤ capacity → store capacity src ≡ some src
store-fits capacity src h =
    let fits : ltb capacity (length src) ≡ false = ground arith in rw fits refl

store_lem :
    (capacity : ℕ) (src frame : Text)
    → store capacity src ≡ some frame
    → (src ≡ frame) × (length frame ≤ capacity)
store_lem capacity src frame h = elim (Bool-cases (ltb capacity (length src))) [
  | inl long ↦ let none_is = rw long at h in cc
  | inr fits ↦ let same : src ≡ frame = some_of (rw fits at h) in (same, rw (← same) (ground arith))
]

-- A frame is the text itself, if it fits.
abbrev stored : Zstd
stored = record {
  compress_bound = λ n. n;
  compress = store;
  frame_content_size = λ frame. some (length frame);
  decompress = store;
  compress-bound = λ src. (src, store-fits (length src) src (omega arith));
  content_size-compress =
      λ capacity src frame h. ap (λ l. some (length l)) (sym (store_lem capacity src frame h).0);
  fits-compress = λ capacity src frame h. (store_lem capacity src frame h).1;
  decompress-compress = λ capacity src frame h.
      let same = (store_lem capacity src frame h).0 in
      ap (λ l. store (length src) l) (sym same) ∙ store-fits (length src) src (omega arith);
}

decompress-compress_example :
    (frame : Text) × (compress stored (codes "flow") (codes "old") ≡ ok frame)
    × (decompress stored frame [] ≡ ok (codes "flow"))
decompress-compress_example = decompress-compress stored (codes "flow") (codes "old") []

abbrev timer : Timer
timer = new_task_timer (codes "encode ") []

destroy_timer-branches_example :
    ((15 < 10 ^ 9)
      × ((msg : Text) × (length msg ≡ 7 + 9 + 2)
          × (destroy_timer milliseconds 15 timer
              ≡ ok (
                  if timer.elapsed == untimed
                  then (msg, timer)
                  else ([], record timer { elapsed = 15; msg_buf = msg })))))
    ⊎ ((10 ^ 9 ≤ 15) × (destroy_timer milliseconds 15 timer ≡ fault length_error))
destroy_timer-branches_example = destroy_timer-branches milliseconds 15 timer
