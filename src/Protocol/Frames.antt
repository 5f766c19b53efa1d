-- ===== src/Protocol/Frames.antt =====
-- `write_json`, `read_json`, `write_stream_frame`, `read_stream_frame`.
use spawnr.Prelude.{
  ℕ, ◌+◌, ◌*◌, ◌/◌, ◌%◌, ◌^◌, ◌≡◌, Option, some, List, [], ◌∷◌, ◌++◌, leb, ◌==◌, if◌then◌else◌,
  length, take, drop, Result, ok, err, ◌>>=◌, ◌>>◌, ensure, context,
}
use spawnr.Protocol.{StreamKind, stdin, stdout, stderr, resize, signal, exit, max_control_frame}

pub data Error : Type 0 where
  unknown_kind too_large oversized unexpected_eof write_failed serialize decode : Error

-- `impl Write`: a write or a flush fails, or gives the writer that goes on.
pub record Writer : Type 1 where
  pub State : Type 0
  pub write_all : State → List ℕ → Option State
  pub flush : State → Option State

-- serde_json for one message type.
pub record Json : Type 1 where
  pub Message : Type 0
  pub to_vec : Message → Option (List ℕ)
  pub from_slice : List ℕ → Option Message

-- `kind as u8`
abbrev pub kind_byte : StreamKind → ℕ
kind_byte stdin = 0
kind_byte stdout = 1
kind_byte stderr = 2
kind_byte resize = 3
kind_byte signal = 4
kind_byte exit = 5

-- `StreamKind::try_from`
unfoldable pub try_from : ℕ → Result Error StreamKind
try_from value =
    if value == 0
    then ok stdin
    else if value == 1
    then ok stdout
    else if value == 2
    then ok stderr
    else if value == 3
    then ok resize
    else if value == 4
    then ok signal
    else if value == 5
    then ok exit
    else err unknown_kind

-- `u32::to_be_bytes`
abbrev pub to_be_bytes : ℕ → List ℕ
to_be_bytes n = n / 16777216 % 256 ∷ n / 65536 % 256 ∷ n / 256 % 256 ∷ n % 256 ∷ []

-- `len() as u32`
abbrev pub as_u32 : ℕ → ℕ
as_u32 n = n % 2 ^ 32

abbrev pub from_be : ℕ → ℕ → ℕ → ℕ → ℕ
from_be a b c d = a * 16777216 + b * 65536 + c * 256 + d

-- `u32::from_be_bytes` of a slice of four.
abbrev pub from_be_bytes : List ℕ → ℕ
from_be_bytes (a ∷ b ∷ c ∷ d ∷ _) = from_be a b c d
from_be_bytes _ = 0

-- `header[0]`; the header that it is used on has five bytes.
abbrev pub first : List ℕ → ℕ
first [] = 0
first (b ∷ _) = b

-- `Read::read_exact`: the bytes read, and those that follow.
unfoldable pub read_exact : ℕ → List ℕ → Result Error (List ℕ × List ℕ)
read_exact n input =
    if leb n (length input) then ok (take n input, drop n input) else err unexpected_eof

unfoldable pub read_json : (j : Json) → List ℕ → Result Error (j.Message × List ℕ)
read_json j input = do
  (header, body) ← read_exact 4 input
  let size = from_be_bytes header
  ensure (leb size max_control_frame) oversized
  (content, rest) ← read_exact size body
  value ← context (j.from_slice content) decode
  ok (value, rest)

unfoldable pub read_stream_frame : List ℕ → Result Error (StreamKind × List ℕ × List ℕ)
read_stream_frame input = do
  (header, body) ← read_exact 5 input
  kind ← try_from (first header)
  let size = from_be_bytes (drop 1 header)
  ensure (leb size max_control_frame) oversized
  (payload, rest) ← read_exact size body
  ok (kind, payload, rest)

module _ (w : Writer) where
  abbrev put : w.State → List ℕ → Result Error w.State
  put out bytes = context (w.write_all out bytes) write_failed

  unfoldable pub write_json : (j : Json) → w.State → j.Message → Result Error w.State
  write_json j out value = do
    content ← context (j.to_vec value) serialize
    ensure (leb (length content) max_control_frame) too_large
    out ← put out (to_be_bytes (as_u32 (length content)))
    out ← put out content
    context (w.flush out) write_failed

  unfoldable pub write_stream_frame : w.State → StreamKind → List ℕ → Result Error w.State
  write_stream_frame out kind payload = do
    ensure (leb (length payload) max_control_frame) too_large
    out ← put out (kind_byte kind ∷ [])
    out ← put out (to_be_bytes (as_u32 (length payload)))
    out ← put out payload
    context (w.flush out) write_failed

-- What a writer's state says was sent: a write appends to it and a flush leaves it.
pub record Records (w : Writer) : Type 0 where
  pub sent : w.State → List ℕ
  pub sent-write_all :
      (out out' : w.State) (bytes : List ℕ)
      → w.write_all out bytes ≡ some out'
      → sent out' ≡ sent out ++ bytes
  pub sent-flush : (out out' : w.State) → w.flush out ≡ some out' → sent out' ≡ sent out

-- The bytes of one frame of each kind.
abbrev pub json_frame : List ℕ → List ℕ
json_frame content = to_be_bytes (length content) ++ content

abbrev pub stream_frame : StreamKind → List ℕ → List ℕ
stream_frame kind payload = kind_byte kind ∷ to_be_bytes (length payload) ++ payload
