-- ===== src/Agent/Session/Environment.antt =====
-- The image environment survives its file, and the last entry for a name wins.
use spawnr.Prelude.{
  ℕ, ◌+◌, ◌≤◌, ◌≡◌, refl, sym, ap, ◌∙◌, ◌≢◌, Bool, true, false, Option, none, some, List, [], ◌∷◌,
  ◌++◌, map, leb, ◌==◌, if◌then◌else◌, All, length, ok, >>=-eq-ok, ensure-eq-ok, leb→le,
  length-append, arith, Bool-cases, inl, inr, ◌>>=◌, ensure, context,
}
use mathlib.Core.List.{append-nil}
use spawnr.Prelude.Text.{
  Str, bytes, len, utf8, contains, split, split_once, last_is, str_eq, str_eq_iff,
}
use spawnr.Prelude.Split.{contains-append, split-append, split-single}
use spawnr.Prelude.Utf8.{IsStr, from_utf8-bytes}
use spawnr.Agent.Session.{
  Env, insert, lookup, parse_entry, parse_loop, parse_image_environment, terminated,
  encode_image_environment, without_last, collect_texts, decode_image_environment,
  max_environment_bytes, max_environment_items, checked_add, saturating_add, size_overflow,
  too_large, too_many, max_image_env_file_bytes,
}

abbrev holds_nul : List ℕ → Bool
holds_nul = contains 0

contains-split_once :
    (entry name value : Str)
    → split_once b'=' entry ≡ some (name, value)
    → contains 0 name ≡ false
    → contains 0 value ≡ false
    → contains 0 entry ≡ false
contains-split_once [] name value h hn hv = cc
contains-split_once (c ∷ s) name value h hn hv = elim (Bool-cases (c == b'=')) [
  | inl same ↦ ground arith
  | inr other ↦ split_later c s name value other h hn hv (contains-split_once s)
]
  where
    split_later :
        (c : ℕ) (s name value : Str)
        → (c == b'=') ≡ false
        → split_once b'=' (c ∷ s) ≡ some (name, value)
        → contains 0 name ≡ false
        → contains 0 value ≡ false
        → ((n v : Str)
            → split_once b'=' s ≡ some (n, v)
            → contains 0 n ≡ false
            → contains 0 v ≡ false
            → contains 0 s ≡ false)
        → contains 0 (c ∷ s) ≡ false
    split_later c s [] value other h hn hv ih = ground arith
    split_later c s (n ∷ ns) value other h hn hv ih = ground (arith, ih ns value)

-- What an accepted entry is.
parse_entry-eq_ok :
    (index : ℕ) (entry name value : Str)
    → parse_entry index entry ≡ ok (name, value)
    → (split_once b'=' entry ≡ some (name, value))
      × (contains 0 name ≡ false)
      × (contains 0 value ≡ false)
unfolding parse_entry
parse_entry-eq_ok index entry name value h = ground arith

utf8_no_nul : (c : ℕ) → (c == 0) ≡ false → holds_nul (utf8 c) ≡ false
utf8_no_nul c h = ground arith

bytes_no_nul : (s : Str) → contains 0 s ≡ false → holds_nul (bytes s) ≡ false
unfolding bytes
bytes_no_nul [] h = refl
bytes_no_nul (c ∷ s) h = rw contains-append (ground (arith, utf8_no_nul c, bytes_no_nul s))

without_last-append :
    (xs : List ℕ) (y : ℕ) (ys : List ℕ)
    → without_last (xs ++ (y ∷ ys)) ≡ xs ++ without_last (y ∷ ys)
unfolding without_last
without_last-append [] y ys = refl
without_last-append (x ∷ []) y ys = refl
without_last-append (x ∷ x' ∷ xs) y ys = ap (λ t. x ∷ t) (without_last-append (x' ∷ xs) y ys)

without_last-cons :
    (b : ℕ) (xs : List ℕ) (y : ℕ) (ys : List ℕ)
    → without_last (b ∷ (xs ++ (y ∷ ys))) ≡ b ∷ without_last (xs ++ (y ∷ ys))
unfolding without_last
without_last-cons b [] y ys = refl
without_last-cons b (x ∷ xs) y ys = refl

last_is-append :
    (xs : List ℕ) (y : ℕ) (ys : List ℕ) → last_is 0 (xs ++ (y ∷ ys)) ≡ last_is 0 (y ∷ ys)
last_is-append [] y ys = refl
last_is-append (x ∷ []) y ys = refl
last_is-append (x ∷ x' ∷ xs) y ys = last_is-append (x' ∷ xs) y ys

parse_loop_no_nul :
    (index total : ℕ) (env : Env) (entries : List Str) (result : Env)
    → parse_loop index total env entries ≡ ok result
    → All (λ e. contains 0 e ≡ false) entries
unfolding parse_loop
parse_loop_no_nul index total env [] result h = tt
parse_loop_no_nul index total env (entry ∷ entries) result h =
    let (total', counted, h') =
      >>=-eq-ok (context (checked_add total (saturating_add (len entry) 1)) size_overflow) _ h in
    let (_, small, h'') = >>=-eq-ok (ensure (leb total' max_environment_bytes) too_large) _ h' in
    let (pair, parsed, more) = >>=-eq-ok (parse_entry index entry) _ h'' in
    let (found, n, v) = parse_entry-eq_ok index entry pair.0 pair.1 parsed in
    (
      contains-split_once entry pair.0 pair.1 found n v,
      parse_loop_no_nul (index + 1) total' (insert pair.0 pair.1 env) entries result more,
    )

split-terminated :
    (entry : Str) (entries : List Str)
    → All (λ e. contains 0 e ≡ false) (entry ∷ entries)
    → split 0 (without_last (terminated (entry ∷ entries))) ≡ map bytes (entry ∷ entries)
unfolding without_last
split-terminated entry [] (h, _) =
    rw (without_last-append (bytes entry) 0 [], append-nil)
      (split-single 0 (bytes entry) (bytes_no_nul entry h))
split-terminated entry (next ∷ entries) (h, hs) =
    rw
      (
        without_last-append (bytes entry) 0 _,
        without_last-cons 0 (bytes next) 0 (terminated entries),
      )
      (split-append 0 (bytes entry) _ (bytes_no_nul entry h)
        ∙ ap (λ t. bytes entry ∷ t) (split-terminated next entries hs))

collect_texts-map :
    (entries : List Str) → All IsStr entries → collect_texts (map bytes entries) ≡ ok entries
unfolding collect_texts
collect_texts-map [] h = refl
collect_texts-map (entry ∷ entries) (h, hs) =
    rw (from_utf8-bytes entry h, collect_texts-map entries hs)

last_is-terminated :
    (entry : Str) (entries : List Str) → last_is 0 (terminated (entry ∷ entries)) ≡ true
last_is-terminated entry [] = last_is-append (bytes entry) 0 []
last_is-terminated entry (next ∷ entries) =
    last_is-append (bytes entry) 0 (terminated (next ∷ entries))
    ∙ last_is-append (0 ∷ bytes next) 0 (terminated entries)
    ∙ sym (last_is-append (bytes next) 0 (terminated entries))
    ∙ last_is-terminated next entries

decode-nonempty :
    (contents : List ℕ)
    → contents ≢ []
    → last_is 0 contents ≡ true
    → decode_image_environment contents
      ≡ (collect_texts (split 0 (without_last contents)) >>= parse_image_environment)
unfolding decode_image_environment
decode-nonempty [] some_byte h = absurd (some_byte refl)
decode-nonempty (b ∷ rest) some_byte h = rw h

append-cons-ne-nil : (xs : List ℕ) (y : ℕ) (ys : List ℕ) → (xs ++ (y ∷ ys)) ≢ []
append-cons-ne-nil [] y ys h = cc
append-cons-ne-nil (x ∷ xs) y ys h = cc

parse_image_environment_no_nul :
    (entries : List Str) (env : Env)
    → parse_image_environment entries ≡ ok env
    → All (λ e. contains 0 e ≡ false) entries
unfolding parse_image_environment
parse_image_environment_no_nul entries env h =
    parse_loop_no_nul 0 0 [] entries env
      (>>=-eq-ok (ensure (leb (length entries) max_environment_items) too_many) _ h).2

decode-terminated :
    (entry : Str) (entries : List Str)
    → All IsStr (entry ∷ entries)
    → All (λ e. contains 0 e ≡ false) (entry ∷ entries)
    → decode_image_environment (terminated (entry ∷ entries))
      ≡ parse_image_environment (entry ∷ entries)
decode-terminated entry entries texts no_nul =
    decode-nonempty _ (append-cons-ne-nil (bytes entry) 0 _) (last_is-terminated entry entries)
    ∙ rw (split-terminated entry entries no_nul, collect_texts-map (entry ∷ entries) texts)

decode-terminated-All :
    (entries : List Str)
    → All IsStr entries
    → All (λ e. contains 0 e ≡ false) entries
    → decode_image_environment (terminated entries) ≡ parse_image_environment entries
unfolding decode_image_environment parse_image_environment parse_loop
decode-terminated-All [] texts no_nul = refl
decode-terminated-All (entry ∷ entries) texts no_nul = decode-terminated entry entries texts no_nul

-- Decoding the file that was encoded from the entries, all of them texts, gives the environment
-- that the entries give when they are parsed directly.
pub decode-encode :
    (entries : List Str) (contents : List ℕ)
    → All IsStr entries
    → encode_image_environment entries ≡ ok contents
    → decode_image_environment contents ≡ parse_image_environment entries
unfolding encode_image_environment
decode-encode entries contents texts h =
    let (env, parsed, made) = >>=-eq-ok (parse_image_environment entries) _ h in
    let same : terminated entries ≡ contents = cc made in
    rw (← same)
      (decode-terminated-All entries texts (parse_image_environment_no_nul entries env parsed))

-- The value that the last entry for a name gives it.
abbrev pub last_value : Str → List Str → Option Str → Option Str
last_value k [] before = before
last_value k (entry ∷ entries) before = last_value k entries (elim (split_once b'=' entry) [
  | none ↦ before
  | some (name, value) ↦ if str_eq name k then some value else before
])

pub lookup-insert :
    (k j : Str) (v : Str) (m : Env)
    → lookup j (insert k v m) ≡ (if str_eq k j then some v else lookup j m)
unfolding lookup insert
lookup-insert k j v [] = refl
lookup-insert k j v ((i, w) ∷ m) =
    ground (arith, str_eq_iff k j, str_eq_iff i k, str_eq_iff i j, lookup-insert k j v m)

lookup-parse_loop :
    (k : Str) (index total : ℕ) (env : Env) (entries : List Str) (result : Env)
    → parse_loop index total env entries ≡ ok result
    → lookup k result ≡ last_value k entries (lookup k env)
unfolding parse_loop
lookup-parse_loop k index total env [] result h = ap (lookup k) (sym (unfold parse_loop in cc h))
lookup-parse_loop k index total env (entry ∷ entries) result h =
    let (total', counted, h') =
      >>=-eq-ok (context (checked_add total (saturating_add (len entry) 1)) size_overflow) _ h in
    let (_, small, h'') = >>=-eq-ok (ensure (leb total' max_environment_bytes) too_large) _ h' in
    let (pair, parsed, more) = >>=-eq-ok (parse_entry index entry) _ h'' in
    let (found, n, v) = parse_entry-eq_ok index entry pair.0 pair.1 parsed in
    rw (found, ← lookup-insert pair.0 k pair.1 env)
      (lookup-parse_loop k (index + 1) total' (insert pair.0 pair.1 env) entries result more)

-- In an accepted image environment each name has the value of the last entry for it, and a name
-- that no entry sets is absent.
pub lookup-parse_image_environment :
    (k : Str) (entries : List Str) (env : Env)
    → parse_image_environment entries ≡ ok env
    → lookup k env ≡ last_value k entries none
unfolding parse_image_environment lookup
lookup-parse_image_environment k entries env h =
    lookup-parse_loop k 0 0 [] entries env
      (>>=-eq-ok (ensure (leb (length entries) max_environment_items) too_many) _ h).2

parse_loop_bounds :
    (index total : ℕ) (env : Env) (entries : List Str) (result : Env)
    → total ≤ max_environment_bytes
    → parse_loop index total env entries ≡ ok result
    → total + length (terminated entries) ≤ max_environment_bytes
unfolding parse_loop
parse_loop_bounds index total env [] result small h = omega arith
parse_loop_bounds index total env (entry ∷ entries) result small h =
    let (total', counted, h') =
      >>=-eq-ok (context (checked_add total (saturating_add (len entry) 1)) size_overflow) _ h in
    let (_, fits, h'') = >>=-eq-ok (ensure (leb total' max_environment_bytes) too_large) _ h' in
    let (pair, parsed, more) = >>=-eq-ok (parse_entry index entry) _ h'' in
    let le : total' ≤ max_environment_bytes = leb→le total' _ (ensure-eq-ok _ _ fits) in
    let sum : total' ≡ total + (len entry + 1) = ground arith in
    let rest =
      parse_loop_bounds (index + 1) total' (insert pair.0 pair.1 env) entries result le more in
    omega (arith, rest, sum, length-append (bytes entry) (0 ∷ terminated entries))

-- The file of an accepted image environment is within the limit of the reader,
-- `MAX_IMAGE_ENV_FILE_BYTES`, and so are its entries in number and in size.
pub encode_image_environment_bounds :
    (entries : List Str) (contents : List ℕ)
    → encode_image_environment entries ≡ ok contents
    → (length entries ≤ max_environment_items)
      × (length contents ≤ max_environment_bytes)
      × (length contents ≤ max_image_env_file_bytes)
unfolding encode_image_environment parse_image_environment
encode_image_environment_bounds entries contents h =
    let (env, parsed, made) = >>=-eq-ok (parse_image_environment entries) _ h in
    let (_, few, more) =
      >>=-eq-ok (ensure (leb (length entries) max_environment_items) too_many) _ parsed in
    let same : terminated entries ≡ contents = cc made in
    let sized = parse_loop_bounds 0 0 [] entries env (omega arith) more in
    rw (← same) (leb→le _ _ (ensure-eq-ok _ _ few), omega (arith, sized), omega (arith, sized))
