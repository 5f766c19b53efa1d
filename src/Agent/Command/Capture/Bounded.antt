-- ===== src/Agent/Command/Capture/Bounded.antt =====
-- A capture with a limit against one without.
use mathlib.Core.List.{append-nil}
use spawnr.Prelude.{
  arith, ℕ, zero, suc, ◌+◌, ◌-◌, ◌≤◌, ◌<◌, ◌≡◌, refl, sym, ap, ◌∙◌, Bool, true, false, not, ◌&&◌,
  ◌||◌, List, [], ◌∷◌, ◌++◌, min, ltb, leb, ◌==◌, if◌then◌else◌, length, take, Result, ok, err,
  length-append, length-take, Bool-cases, leb→le, inl, inr,
}
use spawnr.Agent.Command.Capture.{
  Input, Event, Error, BoundedRead, retain, turn, read_loop, read_bounded, chunk, would_block,
  failed, read_failed, poll_failed, no_event,
}

-- The same loop without a limit.
abbrev pub capture_turn :
    Bool → Event → Input → List ℕ → (List ℕ → Result Error (List ℕ)) → Result Error (List ℕ)
capture_turn finishing event (chunk []) d again = ok d
capture_turn finishing event (chunk (b ∷ data')) d again =
    if finishing && event.past_deadline then ok (d ++ (b ∷ data')) else again (d ++ (b ∷ data'))
capture_turn finishing event would_block d again =
    if finishing then ok d else if event.polled then again d else err poll_failed
capture_turn finishing event (failed e) d again = err (read_failed e)

unfoldable pub capture : Bool → List ℕ → List Event → Result Error (List ℕ)
capture finishing d [] = err no_event
capture finishing d (event ∷ events) =
    capture_turn (finishing || event.done) event event.input d
      (λ d'. capture (finishing || event.done) d' events)

abbrev pub map_ok : {A B : Type 0} → (A → B) → Result Error A → Result Error B
map_ok f (ok a) = ok (f a)
map_ok f (err e) = err e

-- The reference: the first bytes of the data, and whether there were more.
abbrev pub bounded : ℕ → List ℕ → BoundedRead
bounded maximum data' = record { bytes = take maximum data'; exceeded = ltb maximum (length data') }

no_room : (n : ℕ) → suc n ≤ 0 → ⊥
no_room n h = omega arith

take_at : (n m : ℕ) (e : List ℕ) → n ≡ m → take n e ≡ take m e
take_at n m e p = ap (λ k. take k e) p

zero_minus : (n : ℕ) (e : List ℕ) → [] ≡ take (0 - suc n) e
zero_minus n e = take_at 0 (0 - suc n) e (omega arith)

take_all : (n : ℕ) (d : List ℕ) → length d ≤ n → take n d ≡ d
take_all zero [] h = refl
take_all zero (x ∷ d) h = elim (no_room (length d) h) [ ]
take_all (suc n) [] h = refl
take_all (suc n) (x ∷ d) h = ap (λ t. x ∷ t) (take_all n d (omega arith))

take-append : (n : ℕ) (d e : List ℕ) → take n (d ++ e) ≡ take n d ++ take (n - length d) e
take-append zero [] e = refl
take-append zero (x ∷ d) e = zero_minus (length d) e
take-append (suc n) [] e = take_at (suc n) (suc n - 0) e (omega arith)
take-append (suc n) (x ∷ d) e =
    ap (λ t. x ∷ t)
      (take-append n d e
        ∙ ap (λ t. take n d ++ t) (take_at (n - length d) (suc n - suc (length d)) e (omega arith)))

min_left : (a b : ℕ) → leb a b ≡ true → min a b ≡ a
min_left a b h = ground arith

min_right : (a b : ℕ) → leb a b ≡ false → min a b ≡ b
min_right a b h = ground arith

take-min : (k : ℕ) (e : List ℕ) → take (min (length e) k) e ≡ take k e
take-min k e = elim (Bool-cases (leb (length e) k)) [
  | inl h ↦
      take_at _ _ e (min_left (length e) k h)
      ∙ take_all (length e) e (omega arith)
      ∙ sym (take_all k e (leb→le (length e) k h))
  | inr h ↦ take_at _ _ e (min_right (length e) k h)
]

small_retained : (n l t : ℕ) → l < n → (ltb n l || not (min t (n - l) == t)) ≡ ltb n (l + t)
small_retained n l t h = ground arith

same_read : (r s : BoundedRead) → r.bytes ≡ s.bytes → r.exceeded ≡ s.exceeded → r ≡ s
same_read r s p q = λ i. record { bytes = p i; exceeded = q i }

min_small : (n l : ℕ) → l < n → min n l ≡ l
min_small n l h = omega arith

-- While there is room, the whole of what was read so far was kept.
room_bytes :
    (n : ℕ) (d e : List ℕ)
    → length d < n
    → take n d ++ take (min (length e) (n - length (take n d))) e ≡ take n (d ++ e)
room_bytes n d e h =
    rw (length-take n d, min_small n (length d) h, take-min (n - length d) e)
      (sym (take-append n d e))

retain_room : (n : ℕ) (d e : List ℕ) → ltb (length (take n d)) n ≡ true → length d < n
retain_room n d e h = ground (arith, length-take n d)

full_minus : (n : ℕ) (d : List ℕ) → ltb (length (take n d)) n ≡ false → n - length d ≡ 0
full_minus n d h = ground (arith, length-take n d)

full_exceeded :
    (n : ℕ) (d e : List ℕ)
    → ltb 0 (length e) ≡ true
    → ltb (length (take n d)) n ≡ false
    → true ≡ ltb n (length (d ++ e))
full_exceeded n d e pos h = ground (arith, length-take n d, length-append d e)

room_exceeded :
    (n : ℕ) (d e : List ℕ)
    → length d < n
    → (ltb n (length d) || not (min (length e) (n - length (take n d)) == length e))
      ≡ ltb n (length (d ++ e))
room_exceeded n d e h =
    rw (length-take n d, min_small n (length d) h, length-append d e)
      (small_retained n (length d) (length e) h)

retain_full :
    (n : ℕ) (d e : List ℕ) → ltb (length (take n d)) n ≡ false → take n d ≡ take n (d ++ e)
retain_full n d e h = sym (
    take-append n d e
    ∙ ap (λ t. take n d ++ t) (take_at (n - length d) 0 e (full_minus n d h))
    ∙ append-nil (take n d))

retain-bounded :
    (n : ℕ) (d e : List ℕ) → ltb 0 (length e) ≡ true → retain n (bounded n d) e ≡ bounded n (d ++ e)
retain-bounded n d e pos = elim (Bool-cases (ltb (length (take n d)) n)) [
  | inl h ↦ rw h (
      same_read _ _ (room_bytes n d e (retain_room n d e h))
        (room_exceeded n d e (retain_room n d e h)))
  | inr h ↦ rw h (same_read _ _ (retain_full n d e h) (full_exceeded n d e pos h))
]

positive : (n : ℕ) → ltb 0 (suc n) ≡ true
positive n = ground arith

turn-bounded :
    (n : ℕ) (finishing : Bool) (event : Event) (input : Input) (d : List ℕ)
    (again : BoundedRead → Result Error BoundedRead)
    (capture_again : List ℕ → Result Error (List ℕ))
    → ((d' : List ℕ) → again (bounded n d') ≡ map_ok (bounded n) (capture_again d'))
    → turn n finishing event input (bounded n d) again
      ≡ map_ok (bounded n) (capture_turn finishing event input d capture_again)
turn-bounded n finishing event (chunk []) d again capture_again h = refl
turn-bounded n finishing event (chunk (b ∷ data')) d again capture_again h =
    elim (Bool-cases (finishing && event.past_deadline)) [
      | inl e ↦ rw (e, retain-bounded n d (b ∷ data') (positive (length data'))) refl
      | inr e ↦
          rw (e, retain-bounded n d (b ∷ data') (positive (length data'))) (h (d ++ (b ∷ data')))
    ]
turn-bounded n true event would_block d again capture_again h = refl
turn-bounded n false event would_block d again capture_again h = elim (Bool-cases event.polled) [
  | inl e ↦ rw e (h d)
  | inr e ↦ rw e refl
]
turn-bounded n finishing event (failed e) d again capture_again h = refl

read_loop-bounded :
    (n : ℕ) (finishing : Bool) (d : List ℕ) (events : List Event)
    → read_loop n finishing (bounded n d) events ≡ map_ok (bounded n) (capture finishing d events)
unfolding read_loop capture
read_loop-bounded n finishing d [] = refl
read_loop-bounded n finishing d (event ∷ events) =
    turn-bounded n (finishing || event.done) event event.input d _ _
      (λ d'. read_loop-bounded n (finishing || event.done) d' events)

nothing :
    (n : ℕ) → ◌≡◌ {A = BoundedRead} (record { bytes = []; exceeded = false }) (bounded (suc n) [])
nothing n = same_read _ _ refl (ground arith)

-- The capture with a limit is the unlimited one, of which the first `maximum` bytes are kept, with a
-- mark when there were more: for every sequence of reads, the ones that fail included.
pub read_bounded-capture :
    (maximum : ℕ) (events : List Event)
    → read_bounded maximum events ≡ map_ok (bounded maximum) (capture false [] events)
unfolding read_bounded
read_bounded-capture zero events = read_loop-bounded zero false [] events
read_bounded-capture (suc n) events =
    ap (λ r. read_loop (suc n) false r events) (nothing n)
    ∙ read_loop-bounded (suc n) false [] events
