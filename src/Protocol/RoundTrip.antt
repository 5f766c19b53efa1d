-- ===== src/Protocol/RoundTrip.antt =====
-- What one side writes the other side reads, and a reader accepts nothing but frames.
use spawnr.Prelude.{
  ℕ, zero, suc, ◌≤◌, ◌<◌, ◌≡◌, refl, sym, ap, ◌∙◌, some, List, [], ◌∷◌, ◌++◌, true, leb, le→leb,
  leb→le, length, take, drop, length-append, length-take, take-length_append, drop-length_append,
  All, Result, ok, ◌>>=◌, context, >>=-eq-ok, context-eq_ok, arith,
}
use mathlib.Core.List.{append-nil, append_assoc}
use spawnr.Protocol.{StreamKind, max_control_frame}
use spawnr.Protocol.Frames.{
  Error, Writer, Json, Records, kind_byte, try_from, to_be_bytes, from_be, from_be_bytes, as_u32,
  read_exact, read_json, read_stream_frame, write_json, write_stream_frame, json_frame,
  stream_frame, write_failed, serialize,
}

read_exact-append : (xs rest : List ℕ) → read_exact (length xs) (xs ++ rest) ≡ ok (xs, rest)
unfolding read_exact
read_exact-append xs rest = rw (
  le→leb (length xs) (length (xs ++ rest)) (omega (arith, length-append xs rest)),
  take-length_append,
  drop-length_append,
)

take-append-drop : (n : ℕ) (xs : List ℕ) → take n xs ++ drop n xs ≡ xs
take-append-drop zero xs = refl
take-append-drop (suc n) [] = refl
take-append-drop (suc n) (x ∷ xs) = ap (λ t. x ∷ t) (take-append-drop n xs)

read_exact-eq_ok :
    (n : ℕ) (input a rest : List ℕ)
    → read_exact n input ≡ ok (a, rest)
    → (input ≡ a ++ rest) × (length a ≡ n)
unfolding read_exact
read_exact-eq_ok n input a rest h = ground (arith, take-append-drop n input, length-take n input)

from_be-to_be : (n : ℕ) → n < 4294967296 → from_be_bytes (to_be_bytes n) ≡ n
from_be-to_be n h = omega arith

read_exact-4 :
    (a b c d : ℕ) (xs : List ℕ) → read_exact 4 (a ∷ b ∷ c ∷ d ∷ xs) ≡ ok (a ∷ b ∷ c ∷ d ∷ [], xs)
unfolding read_exact
read_exact-4 a b c d xs = rw (le→leb 4 (length (a ∷ b ∷ c ∷ d ∷ xs)) (omega arith))

read_exact-5 :
    (a b c d e : ℕ) (xs : List ℕ)
    → read_exact 5 (a ∷ b ∷ c ∷ d ∷ e ∷ xs) ≡ ok (a ∷ b ∷ c ∷ d ∷ e ∷ [], xs)
unfolding read_exact
read_exact-5 a b c d e xs = rw (le→leb 5 (length (a ∷ b ∷ c ∷ d ∷ e ∷ xs)) (omega arith))

read_json-frame :
    (j : Json) (content rest : List ℕ) (value : j.Message)
    → j.from_slice content ≡ some value
    → length content ≤ max_control_frame
    → read_json j (json_frame content ++ rest) ≡ ok (value, rest)
unfolding read_json
read_json-frame j content rest value parsed small = rw (
  read_exact-4,
  from_be-to_be (length content) (omega arith),
  le→leb (length content) max_control_frame small,
  read_exact-append,
  parsed,
)

try_from-kind_byte : (kind : StreamKind) → try_from (kind_byte kind) ≡ ok kind
unfolding try_from
try_from-kind_byte kind = ground arith

read_stream_frame-frame :
    (kind : StreamKind) (payload rest : List ℕ)
    → length payload ≤ max_control_frame
    → read_stream_frame (stream_frame kind payload ++ rest) ≡ ok (kind, payload, rest)
unfolding read_stream_frame
read_stream_frame-frame kind payload rest small = rw (
  read_exact-5,
  try_from-kind_byte kind,
  from_be-to_be (length payload) (omega arith),
  le→leb (length payload) max_control_frame small,
  read_exact-append,
)

from_be_bytes-to_be_bytes :
    (a b c d : ℕ)
    → a < 256
    → b < 256
    → c < 256
    → d < 256
    → to_be_bytes (from_be a b c d) ≡ a ∷ b ∷ c ∷ d ∷ []
from_be_bytes-to_be_bytes a b c d ha hb hc hd = ground arith

kind_byte_of_try_from : (b : ℕ) (kind : StreamKind) → try_from b ≡ ok kind → b ≡ kind_byte kind
unfolding try_from
kind_byte_of_try_from b kind h = ground arith

-- Whatever a peer sends, an accepted stream frame is exactly a frame that the writer makes, its
-- payload within the limit, and what follows it is left unread.
pub read_stream_frame-eq_ok :
    (input : List ℕ) (kind : StreamKind) (payload rest : List ℕ)
    → All (λ b. b < 256) input
    → read_stream_frame input ≡ ok (kind, payload, rest)
    → (input ≡ stream_frame kind payload ++ rest) × (length payload ≤ max_control_frame)
unfolding read_stream_frame
read_stream_frame-eq_ok (a ∷ b ∷ c ∷ d ∷ e ∷ xs) kind payload rest are_bytes h =
    let size = from_be b c d e in
    let parts = rw read_exact-5 at h in
    ground (
      arith,
      kind_byte_of_try_from a kind,
      from_be_bytes-to_be_bytes b c d e,
      read_exact-eq_ok size xs payload rest,
      parts,
    )
read_stream_frame-eq_ok _ kind payload rest are_bytes h = unfold read_exact in ground arith

write_small :
    (w : Writer) (out : w.State) (kind : StreamKind) (payload : List ℕ) {out' : w.State}
    → write_stream_frame w out kind payload ≡ ok out'
    → leb (length payload) max_control_frame ≡ true
unfolding write_stream_frame
write_small w out kind payload h = ground arith

abbrev concat : List (List ℕ) → List ℕ
concat [] = []
concat (a ∷ as') = a ++ concat as'

-- Writes one after another, and the flush.
writes : (w : Writer) → w.State → List (List ℕ) → Result Error w.State
writes w out [] = context (w.flush out) write_failed
writes w out (a ∷ more) = do next ← context (w.write_all out a) write_failed; writes w next more

sent-writes :
    (w : Writer) (r : Records w) (out out' : w.State) (blocks : List (List ℕ))
    → writes w out blocks ≡ ok out'
    → r.sent out' ≡ r.sent out ++ concat blocks
unfolding writes
sent-writes w r out out' [] h =
    r.sent-flush out out' (context-eq_ok _ _ h) ∙ sym (append-nil (r.sent out))
sent-writes w r out out' (a ∷ more) h =
    let (next, written, rest) = >>=-eq-ok (context (w.write_all out a) write_failed) _ h in
    sent-writes w r next out' more rest
    ∙ rw (r.sent-write_all out next a (context-eq_ok _ _ written), append_assoc)

as_u32-small : (n : ℕ) → n ≤ max_control_frame → as_u32 n ≡ n
as_u32-small n h = omega arith

stream_frame_writes :
    (w : Writer) (out out' : w.State) (kind : StreamKind) (payload : List ℕ)
    → length payload ≤ max_control_frame
    → write_stream_frame w out kind payload ≡ ok out'
    → writes w out ((kind_byte kind ∷ []) ∷ to_be_bytes (length payload) ∷ payload ∷ []) ≡ ok out'
unfolding writes write_stream_frame
stream_frame_writes w out out' kind payload small h =
    rw (as_u32-small (length payload) small, le→leb (length payload) max_control_frame small) at h

-- A stream frame that was written whole is read back, whatever the peer sends after it: the
-- writer has sent `frame` and nothing else, and the reader takes `frame` off its input.
pub read_stream_frame-write_stream_frame :
    (w : Writer) (r : Records w) (out out' : w.State) (kind : StreamKind) (payload rest : List ℕ)
    → write_stream_frame w out kind payload ≡ ok out'
    → (frame : List ℕ) × (r.sent out' ≡ r.sent out ++ frame)
      × (read_stream_frame (frame ++ rest) ≡ ok (kind, payload, rest))
unfolding write_stream_frame
read_stream_frame-write_stream_frame w r out out' kind payload rest h =
    let small = leb→le (length payload) max_control_frame (write_small w out kind payload h) in
    (
      stream_frame kind payload,
      sent-writes w r out out' _ (stream_frame_writes w out out' kind payload small h)
          ∙ ap (λ t. r.sent out ++ (kind_byte kind ∷ to_be_bytes (length payload) ++ t))
              (append-nil payload),
      read_stream_frame-frame kind payload rest small,
    )

json_parts :
    (w : Writer) (j : Json) (out out' : w.State) (value : j.Message)
    → write_json w j out value ≡ ok out'
    → (content : List ℕ) × (j.to_vec value ≡ some content)
      × (length content ≤ max_control_frame)
      × (writes w out (to_be_bytes (length content) ∷ content ∷ []) ≡ ok out')
unfolding writes write_json
json_parts w j out out' value h =
    let (content, made, h') = >>=-eq-ok (context (j.to_vec value) serialize) _ h in
    let small = leb→le (length content) max_control_frame (ground arith) in
    (
      content,
      context-eq_ok _ _ made,
      small,
      rw (as_u32-small (length content) small, le→leb (length content) max_control_frame small) at
          h',
    )

-- A control message that was written whole is read back, whatever the peer sends after it, when
-- parsing undoes serialising.
pub read_json-write_json :
    (w : Writer) (r : Records w) (j : Json) (out out' : w.State) (value : j.Message) (rest : List ℕ)
    → ((v : j.Message) (content : List ℕ)
        → j.to_vec v ≡ some content
        → j.from_slice content ≡ some v)
    → write_json w j out value ≡ ok out'
    → (frame : List ℕ) × (r.sent out' ≡ r.sent out ++ frame)
      × (read_json j (frame ++ rest) ≡ ok (value, rest))
read_json-write_json w r j out out' value rest undoes h =
    let (content, made, small, written) = json_parts w j out out' value h in
    (
      json_frame content,
      sent-writes w r out out' _ written
          ∙ ap (λ t. r.sent out ++ (to_be_bytes (length content) ++ t)) (append-nil content),
      read_json-frame j content rest value (undoes value content made) small,
    )
