-- ===== src/Examples/Wire.antt =====
-- Frames sent to and read from a list of bytes.
use spawnr.Prelude.{ℕ, ◌≡◌, ◌≤◌, ◌<◌, refl, sym, arith, some, List, [], ◌∷◌, ◌++◌, All, length, ok}
use spawnr.Protocol.{stdin, stdout, max_control_frame}
use spawnr.Protocol.Frames.{
  Writer, Json, Records, write_json, read_json, write_stream_frame, read_stream_frame, stream_frame,
  read_exact, try_from,
}
use spawnr.Protocol.RoundTrip.{
  read_stream_frame-write_stream_frame, read_json-write_json, read_stream_frame-eq_ok,
}

-- A writer that keeps what it was given.
abbrev buffer : Writer
buffer = record { State = List ℕ; write_all = λ s bytes. some (s ++ bytes); flush = λ s. some s }

some-injective : (a b : List ℕ) → some a ≡ some b → a ≡ b
some-injective a b h = cc

abbrev buffer_records : Records buffer
buffer_records = record {
  sent = λ s. s;
  sent-write_all = λ out out' bytes h. some-injective out' (out ++ bytes) (sym h);
  sent-flush = λ out out' h. some-injective out' out (sym h);
}

-- Messages that are their own serialisation.
abbrev raw : Json
raw = record { Message = List ℕ; to_vec = λ v. some v; from_slice = λ v. some v }

frame_written :
    write_stream_frame buffer [] stdout (104 ∷ 105 ∷ []) ≡ ok (1 ∷ 0 ∷ 0 ∷ 0 ∷ 2 ∷ 104 ∷ 105 ∷ [])
unfolding write_stream_frame
frame_written = refl

message_written : write_json buffer raw [] (123 ∷ 125 ∷ []) ≡ ok (0 ∷ 0 ∷ 0 ∷ 2 ∷ 123 ∷ 125 ∷ [])
unfolding write_json
message_written = refl

raw_law : (v content : List ℕ) → some v ≡ some content → some content ≡ some v
raw_law v content h = sym h

All-bytes : All (λ b. b < 256) (0 ∷ 0 ∷ 0 ∷ 0 ∷ 1 ∷ 65 ∷ 9 ∷ [])
All-bytes = (
  omega arith,
  (omega arith, (omega arith, (omega arith, (omega arith, (omega arith, (omega arith, tt)))))),
)

frame_read : read_stream_frame (0 ∷ 0 ∷ 0 ∷ 0 ∷ 1 ∷ 65 ∷ 9 ∷ []) ≡ ok (stdin, 65 ∷ [], 9 ∷ [])
unfolding read_stream_frame read_exact try_from
frame_read = refl

read_stream_frame-write_stream_frame_example :
    (frame : List ℕ) × ((1 ∷ 0 ∷ 0 ∷ 0 ∷ 2 ∷ 104 ∷ 105 ∷ []) ≡ [] ++ frame)
    × (read_stream_frame (frame ++ 7 ∷ []) ≡ ok (stdout, 104 ∷ 105 ∷ [], 7 ∷ []))
read_stream_frame-write_stream_frame_example =
    read_stream_frame-write_stream_frame buffer buffer_records []
      (1 ∷ 0 ∷ 0 ∷ 0 ∷ 2 ∷ 104 ∷ 105 ∷ []) stdout (104 ∷ 105 ∷ []) (7 ∷ []) frame_written

read_json-write_json_example :
    (frame : List ℕ) × ((0 ∷ 0 ∷ 0 ∷ 2 ∷ 123 ∷ 125 ∷ []) ≡ [] ++ frame)
    × (read_json raw (frame ++ 7 ∷ []) ≡ ok (123 ∷ 125 ∷ [], 7 ∷ []))
read_json-write_json_example =
    read_json-write_json buffer buffer_records raw [] (0 ∷ 0 ∷ 0 ∷ 2 ∷ 123 ∷ 125 ∷ [])
      (123 ∷ 125 ∷ []) (7 ∷ []) raw_law message_written

read_stream_frame-eq_ok_example :
    ((0 ∷ 0 ∷ 0 ∷ 0 ∷ 1 ∷ 65 ∷ 9 ∷ []) ≡ stream_frame stdin (65 ∷ []) ++ 9 ∷ [])
    × (length {A = ℕ} (65 ∷ []) ≤ max_control_frame)
read_stream_frame-eq_ok_example =
    read_stream_frame-eq_ok (0 ∷ 0 ∷ 0 ∷ 0 ∷ 1 ∷ 65 ∷ 9 ∷ []) stdin (65 ∷ []) (9 ∷ []) All-bytes
      frame_read
