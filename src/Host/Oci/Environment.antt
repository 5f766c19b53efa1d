-- ===== src/Host/Oci/Environment.antt =====
-- The image environment on both sides: what the host validates and what the guest parses.
use spawnr.Prelude.{
  arith, ℕ, ◌+◌, ◌*◌, ◌^◌, ltb, ◌≡◌, refl, sym, ◌∙◌, ap, Bool, true, false, not, ◌&&◌, ◌||◌, Option,
  none, some, List, [], ◌∷◌, leb, length, Result, ok, err, ◌>>=◌, ensure, context, is_ok, >>=-eq-ok,
  ok-injective, Bool-cases, Option-cases, inl, inr,
}
use mathlib.Core.Path.{subst}
use spawnr.Prelude.Text.{Str, str_eq, len, contains, is_empty, split_once}
use spawnr.Agent.Session
use spawnr.Agent.Session.{
  Env, insert, parse_entry, parse_loop, parse_image_environment, valid_image_environment_name,
}
use spawnr.Host.Oci
use spawnr.Host.Oci.{
  check_entry, validate_loop, validate_image_environment, add_entry, MetadataFile,
  machine_config_env, or_empty,
}
use spawnr.Host.State.{MachineRecord}

-- An entry that both sides take.
abbrev fair_pair : Option (Str × Str) → Bool
fair_pair none = false
fair_pair (some (name, value)) =
    not (is_empty name) && not (contains 0 name) && not (contains 0 value)

-- The entries that both sides take after `total` bytes.
abbrev fair : ℕ → List Str → Bool
fair total [] = true
fair total (entry ∷ entries) =
    leb (total + (len entry + 1)) (1024 * 1024)
    && fair_pair (split_once b'=' entry)
    && fair (total + (len entry + 1)) entries

and_assoc : (a b c : Bool) → (a && (b && c)) ≡ (a && b && c)
and_assoc a b c = ground arith

and_eq : {a b c d : Bool} → a ≡ b → c ≡ d → (a && c) ≡ (b && d)
and_eq p q = cc

ensure_then :
    {E A : Type 0} (b : Bool) (e : E) (r : Result E A)
    → is_ok (ensure b e >>= λ _. r) ≡ (b && is_ok r)
ensure_then true e r = refl
ensure_then false e r = refl

ensure_ok : {E : Type 0} (b : Bool) (e : E) → is_ok (ensure b e) ≡ b
ensure_ok true e = refl
ensure_ok false e = refl

check_pair :
    (index : ℕ) (pair : Option (Str × Str))
    → is_ok (
        context pair (Oci.no_separator index) >>= λ (name, value).
        ensure (not (is_empty name) && not (contains 0 name)) (Oci.invalid_name index) >>= λ _.
        ensure (not (contains 0 value)) (Oci.value_nul index))
      ≡ fair_pair pair
check_pair index none = refl
check_pair index (some (name, value)) =
    ensure_then _ _ _
    ∙ ap (λ b. (not (is_empty name) && not (contains 0 name)) && b) (ensure_ok _ _)

check_entry-fair :
    (index : ℕ) (entry : Str) → is_ok (check_entry index entry) ≡ fair_pair (split_once b'=' entry)
unfolding check_entry
check_entry-fair index entry = check_pair index (split_once b'=' entry)

add_small :
    (total n : ℕ)
    → ltb (total + (n + 1)) (2 ^ 64) ≡ true
    → add_entry total n ≡ some (total + (n + 1))
unfolding add_entry
add_small total n e = ground arith

add_large : (total n : ℕ) → ltb (total + (n + 1)) (2 ^ 64) ≡ false → add_entry total n ≡ none
unfolding add_entry
add_large total n e = ground arith

beyond : (t : ℕ) → ltb t (2 ^ 64) ≡ false → leb t (1024 * 1024) ≡ false
beyond t e = ground arith

and_false : (a b : Bool) → a ≡ false → (a && b) ≡ false
and_false a b e = cc

-- The size of the next entry is counted.
counted :
    (total n : ℕ) (next : ℕ → Result Oci.Error (Unit {0}))
    → is_ok (
        context (add_entry total n) Oci.size_overflow >>= λ t.
        ensure (leb t (1024 * 1024)) Oci.too_large >>= λ _. next t)
      ≡ (leb (total + (n + 1)) (1024 * 1024) && is_ok (next (total + (n + 1))))
counted total n next = elim (Bool-cases (ltb (total + (n + 1)) (2 ^ 64))) [
  | inl e ↦
      rw (add_small total n e)
        (ensure_then (leb (total + (n + 1)) (1024 * 1024)) Oci.too_large (next (total + (n + 1))))
  | inr e ↦ rw (add_large total n e) (sym (and_false _ _ (beyond (total + (n + 1)) e)))
]

then_ok :
    {A : Type 0} (r : Result Oci.Error A) (s : Result Oci.Error (Unit {0}))
    → is_ok (r >>= λ _. s) ≡ (is_ok r && is_ok s)
then_ok (ok a) s = refl
then_ok (err e) s = refl

validate_loop-fair :
    (index total : ℕ) (entries : List Str)
    → is_ok (validate_loop index total entries) ≡ fair total entries
unfolding validate_loop
validate_loop-fair index total [] = refl
validate_loop-fair index total (entry ∷ entries) =
    counted total (len entry) _
    ∙ ap (λ b. leb (total + (len entry + 1)) (1024 * 1024) && b)
        (then_ok (check_entry index entry) _
          ∙ and_eq (check_entry-fair index entry)
              (validate_loop-fair (index + 1) (total + (len entry + 1)) entries))
    ∙ and_assoc (leb (total + (len entry + 1)) (1024 * 1024)) _ _

-- The name of an entry has no equals sign.
split_once_name :
    (entry name value : Str)
    → split_once b'=' entry ≡ some (name, value)
    → contains b'=' name ≡ false
split_once_name [] name value h = cc
split_once_name (c ∷ s) [] value h = refl
split_once_name (c ∷ s) (n ∷ name) value h = ground (arith, split_once_name s name value)

and_true : (a : Bool) → (a && true) ≡ a
and_true a = ground arith

name_rule : (a b c : Bool) → c ≡ false → (not a && not (c || b)) ≡ (not a && not b)
name_rule a b c h = cc

parse_entry-fair :
    (index : ℕ) (entry : Str) → is_ok (parse_entry index entry) ≡ fair_pair (split_once b'=' entry)
unfolding parse_entry valid_image_environment_name
parse_entry-fair index entry = elim (Option-cases (split_once b'=' entry)) [
  | inl e ↦ rw e refl
  | inr (pair, e) ↦ rw e (
      ensure_then _ _ _
      ∙ and_eq
          (name_rule (is_empty pair.0) (contains 0 pair.0) _
            (split_once_name entry pair.0 pair.1 e))
          (ensure_then _ _ _ ∙ and_true _)
      ∙ refl)
]

guest_large :
    (total n t : ℕ)
    → ltb (total + (n + 1)) (2 ^ 64) ≡ false
    → Session.checked_add total (Session.saturating_add n 1) ≡ some t
    → leb t (1024 * 1024) ≡ false
guest_large total n t e h = ground arith

guest_beyond :
    {A : Type 0} (total n : ℕ) (next : ℕ → Result Session.Error A)
    → ltb (total + (n + 1)) (2 ^ 64) ≡ false
    → is_ok (
        context (Session.checked_add total (Session.saturating_add n 1)) Session.size_overflow
        >>= λ t. ensure (leb t (1024 * 1024)) Session.too_large >>= λ _. next t)
      ≡ (leb (total + (n + 1)) (1024 * 1024) && is_ok (next (total + (n + 1))))
guest_beyond total n next e =
    elim (Option-cases (Session.checked_add total (Session.saturating_add n 1))) [
      | inl h ↦ rw h (sym (and_false _ _ (beyond _ e)))
      | inr (t, h) ↦ rw h (
          ensure_then _ _ _
          ∙ and_false _ _ (guest_large total n t e h)
          ∙ sym (and_false _ _ (beyond _ e)))
    ]

-- The guest counts an entry the same way.
guest_small :
    (total n : ℕ)
    → ltb (total + (n + 1)) (2 ^ 64) ≡ true
    → Session.checked_add total (Session.saturating_add n 1) ≡ some (total + (n + 1))
guest_small total n e = ground arith

guest_counted :
    {A : Type 0} (total n : ℕ) (next : ℕ → Result Session.Error A)
    → is_ok (
        context (Session.checked_add total (Session.saturating_add n 1)) Session.size_overflow
        >>= λ t. ensure (leb t (1024 * 1024)) Session.too_large >>= λ _. next t)
      ≡ (leb (total + (n + 1)) (1024 * 1024) && is_ok (next (total + (n + 1))))
guest_counted total n next = elim (Bool-cases (ltb (total + (n + 1)) (2 ^ 64))) [
  | inl e ↦
      rw (guest_small total n e) (
        ensure_then (leb (total + (n + 1)) (1024 * 1024)) Session.too_large
          (next (total + (n + 1))))
  | inr e ↦ guest_beyond total n next e
]

bind_ok :
    {A B : Type 0} (r : Result Session.Error A) (f : A → Result Session.Error B) (b : Bool)
    → ((a : A) → is_ok (f a) ≡ b)
    → is_ok (r >>= f) ≡ (is_ok r && b)
bind_ok (ok a) f b h = h a
bind_ok (err e) f b h = refl

parse_loop-fair :
    (index total : ℕ) (env : Env) (entries : List Str)
    → is_ok (parse_loop index total env entries) ≡ fair total entries
unfolding parse_loop
parse_loop-fair index total env [] = refl
parse_loop-fair index total env (entry ∷ entries) =
    guest_counted total (len entry) _
    ∙ ap (λ b. leb (total + (len entry + 1)) (1024 * 1024) && b)
        (bind_ok (parse_entry index entry) _ _ (λ pair.
            parse_loop-fair (index + 1) (total + (len entry + 1)) (insert pair.0 pair.1 env)
              entries)
          ∙ ap (λ b. b && fair (total + (len entry + 1)) entries) (parse_entry-fair index entry))
    ∙ and_assoc (leb (total + (len entry + 1)) (1024 * 1024)) _ _

-- The host accepts an image environment exactly when the guest can parse it, for every list of
-- entries.
pub validate_image_environment-is_ok :
    (entries : List Str)
    → is_ok (validate_image_environment entries) ≡ is_ok (parse_image_environment entries)
unfolding validate_image_environment parse_image_environment
validate_image_environment-is_ok entries =
    ensure_then _ _ _
    ∙ ap (λ b. leb (length entries) 512 && b)
        (validate_loop-fair 0 0 entries ∙ sym (parse_loop-fair 0 0 [] entries))
    ∙ sym (ensure_then _ _ _)

all_ok : {A : Type 0} (r : Result Session.Error A) → is_ok r ≡ true → (a : A) × (r ≡ ok a)
all_ok (ok a) h = (a, refl)
all_ok (err e) h = cc

-- The environment that the host sends for a machine is one that the guest can parse.
pub machine_config_env-parse :
    (file : Str → Result Oci.Error MetadataFile) (r : MachineRecord) (entries : List Str)
    → machine_config_env file r ≡ ok entries
    → (env : Env) × (parse_image_environment entries ≡ ok env)
unfolding machine_config_env
machine_config_env-parse file r entries h =
    let (key, _, h) = >>=-eq-ok (context r.environment.base_cache_key Oci.wrong_identity) _ h in
    let (_, _, h) = >>=-eq-ok (Oci.ensure_hex_digest key) _ h in
    let (m, _, h) = >>=-eq-ok (Oci.read_prepared_metadata (file key)) _ h in
    let (_, _, h) = >>=-eq-ok (Oci.validate_prepared_metadata m false) _ h in
    let (_, _, h) = >>=-eq-ok (ensure (str_eq m.cache_key key) Oci.wrong_identity) _ h in
    let (_, _, h) = >>=-eq-ok (Oci.check_manifest r.environment.manifest_digest m) _ h in
    let (_, valid, h) = >>=-eq-ok (validate_image_environment (or_empty m.config_env)) _ h in
    subst (λ entries. (env : Env) × (parse_image_environment entries ≡ ok env)) (ok-injective h)
      (all_ok (parse_image_environment (or_empty m.config_env))
        (sym (validate_image_environment-is_ok (or_empty m.config_env)) ∙ ap is_ok valid))
