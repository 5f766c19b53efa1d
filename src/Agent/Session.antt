-- ===== src/Agent/Session.antt =====
-- crates/spawnr-agent/src/session.rs: the validation of a session's values, the quoting of the
-- Git configuration, and the image environment that is kept in a NUL-separated file.
pub mod Environment
pub mod Values
pub mod Store
pub mod Configure
use spawnr.Prelude.{
  ℕ, ◌+◌, ◌-◌, ◌*◌, ◌^◌, Bool, true, false, not, ◌&&◌, ◌||◌, Option, none, some, List, [], ◌∷◌,
  ◌++◌, min, ltb, leb, ◌==◌, if◌then◌else◌, length, all, any, Result, ok, err, ◌>>=◌, ◌>>◌, ensure,
  context,
}
use spawnr.Prelude.Text.{
  Str, codes, bytes, len, contains, is_empty, split, split_once, last_is, str_eq, is_control,
  is_ascii_digit, is_ascii_alphanumeric,
}
use spawnr.Prelude.Utf8.{from_utf8}

abbrev pub max_environment_items : ℕ
max_environment_items = 512

abbrev pub max_environment_bytes : ℕ
max_environment_bytes = 1024 * 1024

abbrev pub max_image_env_file_bytes : ℕ
max_image_env_file_bytes = max_environment_bytes + max_environment_items

-- Entries are named by their index.
pub data Error : Type 0 where
  too_many size_overflow too_large : Error
  no_equals invalid_name value_nul : ℕ → Error
  not_terminated not_utf8 : Error
  empty_value too_long control_character invalid_record : Error

abbrev pub Env : Type 0
Env = List (Str × Str)

-- `BTreeMap::insert`
unfoldable pub insert : Str → Str → Env → Env
insert k v [] = (k, v) ∷ []
insert k v ((j, w) ∷ m) =
    let rest = insert k v m in if str_eq j k then (k, v) ∷ m else (j, w) ∷ rest

-- `BTreeMap::get`
unfoldable pub lookup : Str → Env → Option Str
lookup k [] = none
lookup k ((j, w) ∷ m) = if str_eq j k then some w else lookup k m

-- `usize::checked_add`, `usize::saturating_add`
abbrev pub checked_add : ℕ → ℕ → Option ℕ
checked_add a b = if ltb (a + b) (2 ^ 64) then some (a + b) else none

abbrev pub saturating_add : ℕ → ℕ → ℕ
saturating_add a b = min (a + b) (2 ^ 64 - 1)

unfoldable pub valid_image_environment_name : Str → Bool
valid_image_environment_name name =
    not (is_empty name) && not (contains b'=' name || contains 0 name)

unfoldable pub valid_environment_name : Str → Bool
valid_environment_name [] = false
valid_environment_name (c ∷ s) =
    not (is_ascii_digit c) && all (λ b. b == b'_' || is_ascii_alphanumeric b) (bytes (c ∷ s))

-- The checks of one entry, which give its name and value.
unfoldable pub parse_entry : ℕ → Str → Result Error (Str × Str)
unfolding valid_image_environment_name
parse_entry index entry = do
  (name, value) ← context (split_once b'=' entry) (no_equals index)
  ensure (valid_image_environment_name name) (invalid_name index)
  ensure (not (contains 0 value)) (value_nul index)
  ok (name, value)

-- The loop over `entries.iter().enumerate()`.
unfoldable pub parse_loop : ℕ → ℕ → Env → List Str → Result Error Env
unfolding parse_entry
parse_loop index total environment [] = ok environment
parse_loop index total environment (entry ∷ entries) = do
  total' ← context (checked_add total (saturating_add (len entry) 1)) size_overflow
  ensure (leb total' max_environment_bytes) too_large
  (name, value) ← parse_entry index entry
  parse_loop (index + 1) total' (insert name value environment) entries

unfoldable pub parse_image_environment : List Str → Result Error Env
parse_image_environment entries = do
  ensure (leb (length entries) max_environment_items) too_many
  parse_loop 0 0 [] entries

abbrev pub terminated : List Str → List ℕ
terminated [] = []
terminated (entry ∷ entries) = bytes entry ++ (0 ∷ terminated entries)

unfoldable pub encode_image_environment : List Str → Result Error (List ℕ)
encode_image_environment entries = do _ ← parse_image_environment entries; ok (terminated entries)

-- `contents[..contents.len() - 1]`
unfoldable pub without_last : List ℕ → List ℕ
without_last [] = []
without_last (b ∷ []) = []
without_last (b ∷ c ∷ rest) = b ∷ without_last (c ∷ rest)

-- `.map(from_utf8).collect::<Result<Vec<_>>>()`
unfoldable pub collect_texts : List (List ℕ) → Result Error (List Str)
collect_texts [] = ok []
collect_texts (piece ∷ pieces) = do
  text ← context (from_utf8 piece) not_utf8
  texts ← collect_texts pieces
  ok (text ∷ texts)

unfoldable pub decode_image_environment : List ℕ → Result Error Env
decode_image_environment [] = ok []
decode_image_environment (b ∷ rest) = do
  ensure (last_is 0 (b ∷ rest)) not_terminated
  entries ← collect_texts (split 0 (without_last (b ∷ rest)))
  parse_image_environment entries
