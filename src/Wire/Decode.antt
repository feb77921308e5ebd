-- ===== src/Wire/Decode.antt =====
-- What decoding makes of operations that some other program encoded.
use grsync.Base.{ℕ, suc, ◌+◌, ◌-◌, ◌≡◌, refl, sym, ap, arith, true}
use grsync.Base.{
  List, [], ◌∷◌, ◌++◌, length, drop, Bytes, ltb, not_ltb, append-nil, append_assoc,
  take-append-drop, drop-drop, ◌==◌, inl, inr, Bool-cases, Option-cases, some,
}
use grsync.Base.{ok, bind-eq-ok, ok_injective}
use grsync.Base.Int.{ℤ, pos, negsuc, wrap_int, ℤ-cases}
use grsync.Delta.{DeltaOp, copy_op, data_op}
use grsync.Compress.{Zlib}
use grsync.Wire.{
  WireDeltaOp, delta_op_kind_data, delta_op_kind_copy, WireDelta, concat_literals, decompress,
  from_wire_delta_ops, take_literal, from_wire_op, from_wire_loop,
}

-- A literal is the stream from the position to the position behind it.
take_literal_inv :
    (i : ℕ) (stream : Bytes) (p : ℕ) (size : ℤ) (part : Bytes × ℕ)
    → take_literal i stream p size ≡ ok part
    → drop p stream ≡ part.0 ++ drop part.1 stream
unfolding take_literal
take_literal_inv i stream p (negsuc n) part h = absurd (cc h)
take_literal_inv i stream p (pos n) part h = elim (ℤ-cases (wrap_int (p + n))) [
  | inr (end, whole) ↦ absurd (cc (rw (whole, take_literal) at h))
  | inl (end, whole) ↦ elim (Bool-cases (ltb (length stream) end)) [
    | inl short ↦ absurd (cc (rw (whole, take_literal, short) at h))
    | inr enough ↦ elim (Bool-cases (ltb end p)) [
      | inl back ↦ absurd (cc (rw (whole, take_literal, enough, back) at h))
      | inr on ↦
          let taken = ok_injective (rw (whole, take_literal, enough, on) at h) in
          let e : p + (end - p) ≡ end = let le = not_ltb end p on in omega (arith, le) in
          rw (← taken) (
            rw (drop-drop (end - p) p stream, e) at
              (sym (take-append-drop (end - p) (drop p stream))))
    ]
  ]
]

from_wire_op_inv :
    (i : ℕ) (stream : Bytes) (p : ℕ) (w : WireDeltaOp) (part : DeltaOp × ℕ)
    → from_wire_op i true stream p w ≡ ok part
    → drop p stream ≡ concat_literals (part.0 ∷ []) ++ drop part.1 stream
unfolding from_wire_op concat_literals
from_wire_op_inv i stream p w part h = elim (Bool-cases (w.kind == delta_op_kind_copy)) [
  | inl copy ↦ rw (← ok_injective (rw (copy, from_wire_op) at h)) refl
  | inr other ↦ elim (Bool-cases (w.kind == delta_op_kind_data)) [
    | inl literal ↦
        let (found, one, more) =
          bind-eq-ok (take_literal i stream p w.size) _ (rw (other, literal, from_wire_op) at h) in
        rw (← ok_injective more, append-nil found.0) (take_literal_inv i stream p w.size found one)
    | inr unknown ↦ absurd (cc (rw (other, unknown, from_wire_op) at h))
  ]
]

concat_literals-cons :
    (op : DeltaOp) (ops : List DeltaOp)
    → concat_literals (op ∷ ops) ≡ concat_literals (op ∷ []) ++ concat_literals ops
unfolding concat_literals
concat_literals-cons (copy_op idx) ops = refl
concat_literals-cons (data_op b) ops = rw (append-nil b)

-- The literal bytes are the stream from the position on, as far as they go.
from_wire_loop_inv :
    (i : ℕ) (stream : Bytes) (p : ℕ) (wire : List WireDeltaOp) (ops : List DeltaOp)
    → from_wire_loop i true stream p wire ≡ ok ops
    → (length ops ≡ length wire) × ((rest : Bytes) × (drop p stream ≡ concat_literals ops ++ rest))
unfolding from_wire_loop concat_literals
from_wire_loop_inv i stream p [] ops h = rw (← ok_injective h) (refl, (drop p stream, refl))
from_wire_loop_inv i stream p (w ∷ wire) ops h =
    let (part, one, more) = bind-eq-ok (from_wire_op i true stream p w) _ h in
    let (later, rest, done) = bind-eq-ok (from_wire_loop (i + 1) true stream part.1 wire) _ more in
    let (same, (tail, tail_eq)) = from_wire_loop_inv (i + 1) stream part.1 wire later rest in
    let front = from_wire_op_inv i stream p w part one in
    rw (← ok_injective done) (
      ap suc same,
      (
        tail,
        rw
            (
              front,
              tail_eq,
              concat_literals-cons part.0 later,
              append_assoc (concat_literals (part.0 ∷ [])) (concat_literals later) tail,
            )
            refl,
      ),
    )

-- Operations that decode from a compressed message are as many as the message's, and their literal
-- bytes, one after the other, begin the decompressed stream.
pub from_wire_delta_ops_sound :
    (z : Zlib) (d : WireDelta) (ops : List DeltaOp)
    → d.compressed ≡ true
    → from_wire_delta_ops z d ≡ ok ops
    → (length ops ≡ length d.ops)
      × ((rest : Bytes) × (z.inflate d.literal ≡ some (concat_literals ops ++ rest)))
unfolding from_wire_delta_ops decompress
from_wire_delta_ops_sound z d ops on h = elim (Option-cases (z.inflate d.literal)) [
  | inl broken ↦ absurd (cc (rw (on, broken, from_wire_delta_ops, decompress) at h))
  | inr (stream, whole) ↦
      let (same, (rest, eq)) =
        from_wire_loop_inv 0 stream 0 d.ops ops
          (rw (on, whole, from_wire_delta_ops, decompress) at h) in
      (same, (rest, rw (whole, eq) refl))
]
