-- ===== src/Host/Vmm/Hostname.antt =====
-- `validate_machine_hostname` of vmm.rs, `option_path` and `validate_unix_socket_path`, which check what
-- goes onto the command line of the hypervisor; and the rule for names in machine.rs.
use spawnr.Prelude.{
  arith, ℕ, ◌≡◌, refl, sym, ap, ◌∙◌, Bool, true, false, not, ◌&&◌, ◌||◌, List, [], ◌∷◌, ltb, leb,
  ◌==◌, any, all, length, Result, ok, ◌>>=◌, ◌>>◌, ensure, is_ok, &&-eq_true, all-append,
}
use spawnr.Prelude.Text.{
  Str, bytes, utf8, len, is_empty, starts_with, last_is, is_ascii_lowercase, is_ascii_digit,
}
use spawnr.Host.Names.{validate_name, is_name_end, is_name_byte, first_byte, last_byte}

pub data CommandError : Type 0 where
  invalid_hostname socket_path_too_long unsupported_character : CommandError

abbrev pub max_unix_socket_path_bytes : ℕ
max_unix_socket_path_bytes = 107

unfoldable pub validate_unix_socket_path : List ℕ → Result CommandError (Unit {0})
validate_unix_socket_path path =
    ensure (leb (length path) max_unix_socket_path_bytes) socket_path_too_long

-- Of a path that is UTF-8.
unfoldable pub option_path : Str → Result CommandError Str
option_path value = do
  ensure (not (any (λ c. c == b',' || c == b'"' || c == 10 || c == 13 || c == 0) value))
      unsupported_character
  ok value

unfoldable pub validate_machine_hostname : Str → Result CommandError (Unit {0})
validate_machine_hostname name =
    ensure
      (not (is_empty name)
        && leb (len name) 63
        && not (starts_with (b'-' ∷ []) name)
        && not (last_is b'-' name)
        && all (λ b. is_ascii_lowercase b || is_ascii_digit b || b == b'-') (bytes name))
      invalid_hostname

ascii_char : (c : ℕ) → all is_name_byte (utf8 c) ≡ true → utf8 c ≡ c ∷ []
ascii_char c h = ground arith

ascii_bytes : (s : Str) → all is_name_byte (bytes s) ≡ true → bytes s ≡ s
unfolding bytes
ascii_bytes [] h = refl
ascii_bytes (c ∷ s) h =
    let (here, later) =
      &&-eq_true (all is_name_byte (utf8 c)) _
        (sym (all-append is_name_byte (utf8 c) (bytes s)) ∙ h) in
    rw (ascii_char c here, ascii_bytes s later) refl

last_end :
    (c : ℕ) (s : Str)
    → all is_name_byte (c ∷ s) ≡ true
    → not (last_is b'-' (c ∷ s)) ≡ is_name_end (last_byte (c ∷ s))
last_end c [] h = ground arith
last_end c (d ∷ s) h = last_end d s (&&-eq_true (is_name_byte c) _ h).1

first_end :
    (c : ℕ) (s : Str)
    → is_name_byte c ≡ true
    → not (starts_with (b'-' ∷ []) (c ∷ s)) ≡ is_name_end c
first_end c s h = ground arith

same_tests :
    (n : ℕ) (s t f g : Bool)
    → s ≡ f
    → t ≡ g
    → (leb n 63 && s && t && true) ≡ (not (ltb 63 n) && not (not f || not g || not true))
same_tests n s t f g p q = ground arith

neither :
    (n : ℕ) (s t f g : Bool)
    → (leb n 63 && s && t && false) ≡ (not (ltb 63 n) && not (not f || not g || not false))
neither n s t f g = ground arith

two_tests :
    {E : Type 0} (a b : Bool) (e e' : E) → is_ok (ensure a e >>= λ _. ensure b e') ≡ (a && b)
two_tests true true e e' = refl
two_tests true false e e' = refl
two_tests false b e e' = refl

one_test : {E : Type 0} (a : Bool) (e : E) → is_ok (ensure a e) ≡ a
one_test true e = refl
one_test false e = refl

all_tests :
    (c : ℕ) (s : Str) (a : Bool)
    → all is_name_byte (bytes (c ∷ s)) ≡ a
    → (leb (len (c ∷ s)) 63
        && not (starts_with (b'-' ∷ []) (c ∷ s))
        && not (last_is b'-' (c ∷ s))
        && a)
      ≡ (not (ltb 63 (len (c ∷ s)))
          && not (
              not (is_name_end (first_byte (bytes (c ∷ s))))
              || not (is_name_end (last_byte (bytes (c ∷ s))))
              || not a))
all_tests c s false h = neither _ _ _ _ _
all_tests c s true h =
    let plain = ascii_bytes (c ∷ s) h in
    let named = sym (ap (all is_name_byte) plain) ∙ h in
    same_tests _ _ _ _ _
      (first_end c s (&&-eq_true (is_name_byte c) _ named).0
        ∙ sym (ap (λ b. is_name_end (first_byte b)) plain))
      (last_end c s named ∙ sym (ap (λ b. is_name_end (last_byte b)) plain))

-- The hypervisor takes a name as the guest's host name exactly when `validate_name` accepts it as the
-- name of a machine, for every text.
pub validate_machine_hostname-is_ok :
    (name : Str) → is_ok (validate_machine_hostname name) ≡ is_ok (validate_name name)
unfolding validate_machine_hostname validate_name bytes
validate_machine_hostname-is_ok [] = refl
validate_machine_hostname-is_ok (c ∷ s) =
    one_test _ _ ∙ all_tests c s _ refl ∙ sym (two_tests _ _ _ _)
