-- ===== src/Transport/Frame/Tests.antt =====
-- Runs of the framing, and its theorems at concrete bytes.
use grsync.Base.{◌≡◌, refl, arith, [], ◌∷◌, ◌++◌, Bytes, codes, ok, err}
use grsync.Conn.{Conn}
use grsync.Transport.Frame.{
  Frame, frame_delta, payload_too_large, payload_eof, write_frame, read_frame, put_uint32,
}
use grsync.Transport.Frame.Codec.{encode, IsFrame, read_frame-write_frame}
use grsync.Transport.Frame.Bounds.{read_frame_sound, read_frame_cut}

abbrev sample : Frame
sample = record { frame_type = frame_delta; payload = codes "abc" }

abbrev fresh : Bytes → Conn
fresh s = record { input = s; output = [] }

abbrev sample_bytes : Bytes
sample_bytes = 0 ∷ 0 ∷ 0 ∷ 3 ∷ 5 ∷ codes "abc"

write_sample : write_frame sample (fresh []) ≡ (ok tt, record { input = []; output = sample_bytes })
unfolding write_frame
write_sample = refl

read_sample : read_frame (fresh (sample_bytes ++ (7 ∷ []))) ≡ (ok sample, fresh (7 ∷ []))
unfolding read_frame
read_sample = refl

read_hostile :
    read_frame (fresh (255 ∷ 0 ∷ 0 ∷ 0 ∷ 5 ∷ []))
    ≡ (err (payload_too_large 4_278_190_080), fresh [])
unfolding read_frame
read_hostile = refl

sample-IsFrame : IsFrame sample
sample-IsFrame = record { type_byte = omega arith; small = omega arith }

read_frame-write_frame_example :
    (w : Bytes) × (write_frame sample (fresh []) ≡ (ok tt, record { input = []; output = w }))
    × (read_frame (fresh (w ++ (7 ∷ []))) ≡ (ok sample, fresh (7 ∷ [])))
read_frame-write_frame_example = read_frame-write_frame sample (fresh []) (7 ∷ []) [] sample-IsFrame

read_frame_sound_example :
    IsFrame sample
    × (sample_bytes ++ (7 ∷ []) ≡ encode sample ++ (7 ∷ []))
    × ((fresh (7 ∷ [])).output ≡ [])
read_frame_sound_example =
    read_frame_sound (sample_bytes ++ (7 ∷ [])) [] sample (fresh (7 ∷ [])) (omega arith) read_sample

read_frame_cut_example : (read_frame (fresh (0 ∷ 0 ∷ 0 ∷ 3 ∷ 5 ∷ 97 ∷ []))).0 ≡ err payload_eof
unfolding put_uint32
read_frame_cut_example =
    read_frame_cut sample (0 ∷ 0 ∷ 0 ∷ 3 ∷ 5 ∷ 97 ∷ []) (99 ∷ []) [] 98 sample-IsFrame refl
