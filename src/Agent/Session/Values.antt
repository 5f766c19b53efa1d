-- ===== src/Agent/Session/Values.antt =====
-- `validate_optional`, `validate_known_hosts`, `quote_git_config` and the text that
-- `write_git_config` builds.
use spawnr.Prelude.{
  ℕ, ◌*◌, ◌≡◌, refl, sym, ap, ◌∙◌, Bool, true, false, not, ◌&&◌, ◌||◌, Option, none, some, List, [],
  ◌∷◌, ◌++◌, leb, ◌==◌, if◌then◌else◌, all, any, Result, ok, ◌>>◌, ensure, arith,
}
use mathlib.Core.List.{append-nil, append_assoc}
use spawnr.Prelude.Text.{Str, codes, len, contains, is_empty, split, is_control}
use spawnr.Prelude.Split.{contains-append, split-append}
use spawnr.Agent.Session.{Error, empty_value, too_long, control_character, invalid_record}
use spawnr.Protocol.{SessionConfig}

unfoldable pub validate_optional : Option Str → ℕ → Result Error (Unit {0})
validate_optional none maximum = ok tt
validate_optional (some value) maximum = do
  ensure (not (is_empty value)) empty_value
  ensure (leb (len value) maximum) too_long
  ensure (not (any (λ c. c == 0 || is_control c) value)) control_character

-- `str::lines`: the pieces at '\n', less an empty last one, each less a '\r' at its end.
abbrev without_cr : Str → Str
without_cr [] = []
without_cr (c ∷ []) = if c == 13 then [] else c ∷ []
without_cr (c ∷ d ∷ s) = c ∷ without_cr (d ∷ s)

abbrev drop_empty_last : List Str → List Str
drop_empty_last [] = []
drop_empty_last ([] ∷ []) = []
drop_empty_last (s ∷ ss) = s ∷ drop_empty_last ss

abbrev strip_all : List Str → List Str
strip_all [] = []
strip_all (s ∷ ss) = without_cr s ∷ strip_all ss

unfoldable pub lines : Str → List Str
lines s = strip_all (drop_empty_last (split 10 s))

unfoldable pub validate_known_hosts : Option Str → Result Error (Unit {0})
validate_known_hosts none = ok tt
validate_known_hosts (some value) = do
  ensure (not (is_empty value)) empty_value
  ensure (leb (len value) (1024 * 1024)) too_long
  ensure
      (not (contains 0 value || contains 13 value)
        && all (λ l. leb (len l) (64 * 1024)) (lines value))
      invalid_record

-- The `match` on one character.
abbrev pub quote_char : ℕ → Str
quote_char c = if c == 92 then 92 ∷ 92 ∷ [] else if c == 34 then 92 ∷ 34 ∷ [] else c ∷ []

-- The loop's output, and the quote that closes it.
abbrev pub quote_chars : Str → Str
quote_chars [] = 34 ∷ []
quote_chars (c ∷ s) = quote_char c ++ quote_chars s

unfoldable pub quote_git_config : Str → Str
quote_git_config value = 34 ∷ quote_chars value

-- One `if let Some(value)` of `write_git_config`.
abbrev field : Str → Option Str → Str → Str
field key none end = []
field key (some value) end = key ++ (quote_git_config value ++ end)

-- `write_git_config`, up to the write.
unfoldable pub git_config : SessionConfig → Str
git_config config =
    codes "[user]\n\tuseConfigOnly = true\n"
    ++ (field (codes "\tname = ") config.git_user_name (codes "\n")
        ++ (field (codes "\temail = ") config.git_user_email (codes "\n")
            ++ field (codes "\tsigningKey = ") config.git_signing_key
                (codes "\n[gpg]\n\tformat = ssh\n")))

-- The escapes that git-config(1) documents for a value: \", \\, \n, \t and \b, and no other.
abbrev escaped_char : ℕ → Option ℕ
escaped_char c =
    if c == 34 || c == 92
    then some c
    else if c == b'n'
    then some 10
    else if c == b't'
    then some 9
    else if c == b'b'
    then some 8
    else none

-- How git-config(1) documents that a value in double quotes is read: a backslash begins an escape, or
-- continues the value on the next line if it is the last character of a line; a bare quote ends the
-- value; the line must not end within the quotes. Given are the value and the text behind it.
abbrev cons_value : ℕ → Option (Str × Str) → Option (Str × Str)
cons_value c none = none
cons_value c (some (v, rest)) = some (c ∷ v, rest)

unfoldable pub read_quoted : Bool → Str → Option (Str × Str)
read_quoted escaped [] = none
read_quoted true (c ∷ s) =
    let rest = read_quoted false s in
    if c == 10 then rest else elim (escaped_char c) [ none ↦ none | some d ↦ cons_value d rest ]
read_quoted false (c ∷ s) =
    let rest = read_quoted false s in
    let after_backslash = read_quoted true s in
    if c == 92
    then after_backslash
    else if c == 34
    then some ([], s)
    else if c == 10
    then none
    else cons_value c rest

read_quoted-quote_chars :
    (value rest : Str)
    → contains 10 value ≡ false
    → read_quoted false (quote_chars value ++ rest) ≡ some (value, rest)
unfolding read_quoted
read_quoted-quote_chars [] rest h = refl
read_quoted-quote_chars (c ∷ s) rest h = ground (arith, read_quoted-quote_chars s rest)

-- A value that the checks accept, or none.
abbrev IsAccepted : Option Str → ℕ → Type 0
IsAccepted value maximum = validate_optional value maximum ≡ ok tt

accepted_no_control :
    (value : Str) → any (λ c. c == 0 || is_control c) value ≡ false → contains 10 value ≡ false
accepted_no_control [] h = refl
accepted_no_control (c ∷ s) h = ground (arith, accepted_no_control s)

accepted_one_line :
    (value : Str) (maximum : ℕ) → IsAccepted (some value) maximum → contains 10 value ≡ false
unfolding validate_optional
accepted_one_line value maximum h = ground (arith, accepted_no_control value)

-- A quoted Git value that the check of the session accepts is one token: behind the opening quote, a
-- reader of the documented escapes finds exactly the value, and stops at the closing quote that the
-- function wrote.
pub read_quoted-quote_git_config :
    (value rest tail : Str) (maximum : ℕ)
    → validate_optional (some value) maximum ≡ ok tt
    → quote_git_config value ++ rest ≡ 34 ∷ tail
    → read_quoted false tail ≡ some (value, rest)
unfolding quote_git_config
read_quoted-quote_git_config value rest tail maximum accepted h =
    let e : tail ≡ quote_chars value ++ rest = cc in
    rw e (read_quoted-quote_chars value rest (accepted_one_line value maximum accepted))

quote_chars_one_line :
    (value : Str) → contains 10 value ≡ false → contains 10 (quote_chars value) ≡ false
quote_chars_one_line [] h = refl
quote_chars_one_line (c ∷ s) h = ground (arith, quote_chars_one_line s)

-- The lines that one field adds to the file.
abbrev pub field_lines : Str → Option Str → List Str → List Str
field_lines key none more = []
field_lines key (some value) more = (key ++ quote_git_config value) ∷ more

split_line :
    (key value end rest : Str)
    → contains 10 key ≡ false
    → contains 10 value ≡ false
    → split 10 ((key ++ (value ++ (10 ∷ end))) ++ rest) ≡ (key ++ value) ∷ split 10 (end ++ rest)
split_line key value end rest one two =
    ap (split 10) (simp append_assoc)
    ∙ split-append 10 (key ++ value) (end ++ rest) (rw (contains-append, one) two)

quote_git_config_one_line :
    (value : Str) (maximum : ℕ)
    → IsAccepted (some value) maximum
    → contains 10 (quote_git_config value) ≡ false
unfolding quote_git_config
quote_git_config_one_line value maximum accepted =
    quote_chars_one_line value (accepted_one_line value maximum accepted)

-- The lines of the file for a name, an email and a signing key.
abbrev pub line_if : Str → Option Str → List Str → List Str
line_if key none more = more
line_if key (some value) more = (key ++ quote_git_config value) ∷ more

abbrev pub signing_lines : Option Str → List Str
signing_lines none = [] ∷ []
signing_lines (some value) =
    (codes "\tsigningKey = " ++ quote_git_config value)
    ∷ codes "[gpg]"
    ∷ codes "\tformat = ssh"
    ∷ []
    ∷ []

split-field :
    (key : Str) (value : Option Str) (maximum : ℕ) (rest : Str)
    → contains 10 key ≡ false
    → IsAccepted value maximum
    → split 10 (field key value (10 ∷ []) ++ rest) ≡ line_if key value (split 10 rest)
split-field key none maximum rest one accepted = refl
split-field key (some value) maximum rest one accepted =
    split_line key (quote_git_config value) [] rest one
      (quote_git_config_one_line value maximum accepted)

signing_field :
    (key : Option Str) (maximum : ℕ)
    → IsAccepted key maximum
    → split 10 (field (codes "\tsigningKey = ") key (codes "\n[gpg]\n\tformat = ssh\n"))
      ≡ signing_lines key
unfolding split
signing_field none maximum h = refl
signing_field (some value) maximum h =
    ap (split 10) (
      sym (
        append-nil
          (field (codes "\tsigningKey = ") (some value) (codes "\n[gpg]\n\tformat = ssh\n"))))
    ∙ split_line (codes "\tsigningKey = ") (quote_git_config value)
        (codes "[gpg]\n\tformat = ssh\n") [] refl (quote_git_config_one_line value maximum h)

-- The lines of the Git configuration of a session whose values the checks accept: the two fixed
-- lines, one for the name, one for the email, three for the signing key, each only if it is given,
-- and nothing else. So no value can bring a line of its own.
pub split-git_config :
    (config : SessionConfig) (a b c : ℕ)
    → IsAccepted config.git_user_name a
    → IsAccepted config.git_user_email b
    → IsAccepted config.git_signing_key c
    → split 10 (git_config config)
      ≡ codes "[user]"
        ∷ codes "\tuseConfigOnly = true"
        ∷ line_if (codes "\tname = ") config.git_user_name (
            line_if
              (codes "\temail = ")
              config.git_user_email
              (signing_lines config.git_signing_key))
unfolding git_config split
split-git_config config a b c name email key =
    ap (λ t. codes "[user]" ∷ codes "\tuseConfigOnly = true" ∷ t)
      (split-field (codes "\tname = ") config.git_user_name a _ refl name
        ∙ ap (line_if (codes "\tname = ") config.git_user_name) (
            split-field (codes "\temail = ") config.git_user_email b _ refl email
            ∙ ap (line_if (codes "\temail = ") config.git_user_email)
                (signing_field config.git_signing_key c key)))
