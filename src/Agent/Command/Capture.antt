-- ===== src/Agent/Command/Capture.antt =====
-- `read_bounded` of command.rs: the captured output of a command. A read is an event, with what the
-- loop sees around it: whether the command is done, and whether the 100 ms afterwards are over.
pub mod Bounded
use mathlib.Core.List.{append-nil}
use spawnr.Prelude.{
  arith, ℕ, zero, suc, ◌+◌, ◌-◌, ◌*◌, ◌≤◌, ◌<◌, ◌≡◌, refl, sym, ap, ◌∙◌, Bool, true, false, not,
  ◌&&◌, ◌||◌, List, [], ◌∷◌, ◌++◌, min, ltb, leb, ◌==◌, if◌then◌else◌, length, take, Result, ok,
  err, length-append, length-take, Bool-cases, leb→le, inl, inr,
}

abbrev pub max_captured_output : ℕ
max_captured_output = 8 * 1024 * 1024

pub data Input : Type 0 where
  -- `Ok(0)` is the empty chunk.
  chunk : List ℕ → Input
  would_block : Input
  failed : ℕ → Input

pub record Event : Type 0 where
  pub done : Bool
  pub input : Input
  pub past_deadline : Bool
  -- `poll_readable`, when the read would block.
  pub polled : Bool

pub data Error : Type 0 where
  read_failed : ℕ → Error
  poll_failed : Error
  -- The model's own: the sequence of events ends before the loop does.
  no_event : Error

pub record BoundedRead : Type 0 where
  pub bytes : List ℕ
  pub exceeded : Bool

-- What is kept of a chunk; `maximum` is `MAX_CAPTURED_OUTPUT`.
abbrev pub retain : ℕ → BoundedRead → List ℕ → BoundedRead
retain maximum r data' =
    if ltb (length r.bytes) maximum
    then (let retained = min (length data') (maximum - length r.bytes) in
        record {
          bytes = r.bytes ++ take retained data';
          exceeded = r.exceeded || not (retained == length data');
        })
    else record { bytes = r.bytes; exceeded = true }

-- One turn, after `finish_by` was set or not; `again` is the rest of the loop.
abbrev pub turn :
    ℕ
    → Bool
    → Event
    → Input
    → BoundedRead
    → (BoundedRead → Result Error BoundedRead)
    → Result Error BoundedRead
turn maximum finishing event (chunk []) r again = ok r
turn maximum finishing event (chunk (b ∷ data')) r again =
    if finishing && event.past_deadline
    then ok (retain maximum r (b ∷ data'))
    else again (retain maximum r (b ∷ data'))
turn maximum finishing event would_block r again =
    if finishing then ok r else if event.polled then again r else err poll_failed
turn maximum finishing event (failed e) r again = err (read_failed e)

unfoldable pub read_loop : ℕ → Bool → BoundedRead → List Event → Result Error BoundedRead
read_loop maximum finishing r [] = err no_event
read_loop maximum finishing r (event ∷ events) =
    turn maximum (finishing || event.done) event event.input r
      (λ r'. read_loop maximum (finishing || event.done) r' events)

unfoldable pub read_bounded : ℕ → List Event → Result Error BoundedRead
read_bounded maximum events =
    read_loop maximum false (record { bytes = []; exceeded = false }) events
