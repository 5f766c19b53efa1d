-- ===== src/Examples/Requests.antt =====
-- What a guest captures, accepts and mounts.
use spawnr.Prelude.{Option, some, ℕ, ◌≡◌, refl, true, false, List, [], ◌∷◌, length, ok}
use spawnr.Prelude.Text.{Str, codes, bytes}
use spawnr.Agent.Session.{Env, valid_environment_name}
use spawnr.Agent.Command.Capture.{Event, chunk, would_block, read_bounded}
use spawnr.Agent.Command.Capture.Bounded.{bounded, capture, map_ok, read_bounded-capture}
use spawnr.Agent.Command.Arguments.{validate_environment, environment_loop, signal_child}
use spawnr.Agent.Reaper.{parent_pid, reap_adopted_children, parent_pid-eq}
use spawnr.Agent.Mount.{unescape_mountinfo, fields_from, take_field}
use spawnr.Host.Process.{after_close}
use spawnr.Agent.Mount.Escapes.{escape_text, unescape_mountinfo-escape_text}

-- Two chunks, and the end.
abbrev reads : List Event
reads =
    record { done = false; input = chunk (1 ∷ 2 ∷ []); past_deadline = false; polled = true }
    ∷ record { done = false; input = would_block; past_deadline = false; polled = true }
    ∷ record { done = true; input = chunk (3 ∷ 4 ∷ []); past_deadline = false; polled = true }
    ∷ record { done = true; input = chunk []; past_deadline = false; polled = true }
    ∷ []

all_captured : capture false [] reads ≡ ok (1 ∷ 2 ∷ 3 ∷ 4 ∷ [])
unfolding capture
all_captured = refl

read_bounded-capture_example : read_bounded 3 reads ≡ map_ok (bounded 3) (capture false [] reads)
read_bounded-capture_example = read_bounded-capture 3 reads

abbrev variables : Env
variables = (codes "A", codes "1") ∷ (codes "B_2", codes "x y") ∷ []

variables_accepted : validate_environment variables ≡ ok tt
unfolding validate_environment environment_loop valid_environment_name bytes
variables_accepted = refl

terminated : signal_child (0 ∷ 0 ∷ 0 ∷ 15 ∷ []) ≡ ok 15
unfolding signal_child
terminated = refl

unescape_mountinfo-escape_text_example :
    unescape_mountinfo (escape_text (codes "/a b")) ≡ ok (codes "/a b")
unescape_mountinfo-escape_text_example =
    unescape_mountinfo-escape_text (codes "/a b") (refl, (refl, (refl, (refl, tt))))

-- A number is the length of its text here.
abbrev read_number : Str → Option ℕ
read_number s = some (length s)

-- Two orphans, of which one is tracked.
abbrev orphan : ℕ → Option Str
orphan pid = some (codes "x (y) Z 1 0")

one_reaped :
    reap_adopted_children read_number (λ now. 3 ∷ []) orphan 0 (codes "aa" ∷ codes "bbb" ∷ [])
    ≡ 2 ∷ []
unfolding reap_adopted_children parent_pid after_close fields_from take_field
one_reaped = refl

parent_pid-eq_example : parent_pid read_number (codes "42 (odd ) name) S 123 0 0") ≡ some 3
parent_pid-eq_example =
    parent_pid-eq read_number (codes "42 (odd ) name") (b'S') (b'1') (codes "23") (codes "0 0") refl
      refl
