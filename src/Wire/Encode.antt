-- ===== src/Wire/Encode.antt =====
-- What comes off the wire is what went on it, compressed or not.
use grsync.Base.{ℕ, ◌+◌, ◌-◌, ◌^◌, ◌<◌, ◌≡◌, refl, sym, arith, inl, inr, true, false}
use grsync.Base.{some, List, [], ◌∷◌, ◌++◌, map, Bytes, length, ltb-false, not, ◌&&◌}
use grsync.Base.{
  append_assoc, length-append, take-append_exact, drop-append_exact, ok, Option-cases, Bool-cases,
}
use grsync.Base.Int.{pos, wrap_int-small}
use grsync.Delta.{DeltaOp, copy_op, data_op}
use grsync.Compress.{CompressOptions, Zlib, Inflates, compress_literal, skip_compress_suffix}
use grsync.Wire.{
  concat_literals, to_wire_op, try_compress, to_wire_delta_ops, take_literal, from_wire_loop,
  from_wire_delta_ops,
}

from_wire_loop-plain :
    (i : ℕ) (stream : Bytes) (p : ℕ) (ops : List DeltaOp)
    → from_wire_loop i false stream p (map (to_wire_op false) ops) ≡ ok ops
unfolding from_wire_loop to_wire_op
from_wire_loop-plain i stream p [] = refl
from_wire_loop-plain i stream p (copy_op idx ∷ ops) = rw (from_wire_loop-plain (i + 1) stream p ops)
from_wire_loop-plain i stream p (data_op b ∷ ops) = rw (from_wire_loop-plain (i + 1) stream p ops)

take_literal-append :
    (i : ℕ) (front b rest : Bytes)
    → length (front ++ (b ++ rest)) < 2 ^ 63
    → take_literal i (front ++ (b ++ rest)) (length front) (pos (length b))
      ≡ ok (b, length (front ++ b))
unfolding take_literal
take_literal-append i front b rest h =
    let total = length-append front (b ++ rest) in
    let inner = length-append b rest in
    let same : length front + length b ≡ length (front ++ b) = sym (length-append front b) in
    let span : length (front ++ b) - length front ≡ length b =
      omega (arith, length-append front b) in
    rw (
      wrap_int-small (length front + length b) (omega arith),
      take_literal,
      same,
      ltb-false (length (front ++ (b ++ rest))) (length (front ++ b))
          (omega (arith, length-append front b)),
      ltb-false (length (front ++ b)) (length front) (omega (arith, length-append front b)),
      span,
      drop-append_exact front (b ++ rest),
      take-append_exact b rest,
    )

from_wire_loop-packed :
    (i : ℕ) (front : Bytes) (ops : List DeltaOp)
    → length (front ++ concat_literals ops) < 2 ^ 63
    → from_wire_loop i true
        (front ++ concat_literals ops)
        (length front)
        (map (to_wire_op true) ops)
      ≡ ok ops
unfolding from_wire_loop to_wire_op concat_literals
from_wire_loop-packed i front [] h = refl
from_wire_loop-packed i front (copy_op idx ∷ ops) h = rw (from_wire_loop-packed (i + 1) front ops h)
from_wire_loop-packed i front (data_op b ∷ ops) h =
    let stream_eq = append_assoc front b (concat_literals ops) in
    let later = from_wire_loop-packed (i + 1) (front ++ b) ops (rw stream_eq h) in
    rw (take_literal-append i front b (concat_literals ops) h, rw stream_eq at later)

module _ (z : Zlib) (law : Inflates z) where
  compress_literal-inflates :
      (level : ℕ) (bytes packed : Bytes)
      → compress_literal z level bytes ≡ some packed
      → z.inflate packed ≡ some bytes
  unfolding compress_literal
  compress_literal-inflates level bytes packed h = elim (Option-cases (z.deflate level bytes)) [
    | inl failed ↦ absurd (cc (rw (failed, compress_literal) at h))
    | inr (out, written) ↦
        let kept = rw (written, compress_literal) at h in
        ground (arith, law level bytes out written, kept)
  ]

  try_compress-inflates :
      (copts : CompressOptions) (path bytes packed : Bytes)
      → try_compress z copts path bytes ≡ some packed
      → z.inflate packed ≡ some bytes
  unfolding try_compress
  try_compress-inflates copts path [] packed h = absurd (cc h)
  try_compress-inflates copts path (c ∷ bytes) packed h =
      elim (Bool-cases (copts.enabled && not (skip_compress_suffix path copts.skip_suffixes))) [
        | inl on ↦
            compress_literal-inflates copts.level (c ∷ bytes) packed (rw (on, try_compress) at h)
        | inr off ↦ absurd (cc (rw (off, try_compress) at h))
      ]

  -- The receiver decodes exactly the operations that the sender encoded, with compression on or
  -- off, for any path, options and operations whose literal bytes together are below 2 ^ 63, if a
  -- zlib reader gives back what a zlib writer was given.
  pub from_wire_delta_ops-to_wire_delta_ops :
      (ops : List DeltaOp) (path : Bytes) (copts : CompressOptions)
      → length (concat_literals ops) < 2 ^ 63
      → from_wire_delta_ops z (to_wire_delta_ops z ops path copts) ≡ ok ops
  unfolding from_wire_delta_ops to_wire_delta_ops
  from_wire_delta_ops-to_wire_delta_ops ops path copts h =
      elim (Option-cases (try_compress z copts path (concat_literals ops))) [
        | inl plain ↦ rw (plain, to_wire_delta_ops, from_wire_loop-plain 0 [] 0 ops)
        | inr (packed, smaller) ↦ rw (
          smaller,
          to_wire_delta_ops,
          try_compress-inflates copts path (concat_literals ops) packed smaller,
          from_wire_loop-packed 0 [] ops h,
        )
      ]
