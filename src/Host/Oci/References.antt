-- ===== src/Host/Oci/References.antt =====
-- References of images: normal forms, and references that are pinned to a digest.
use spawnr.Prelude.{
  arith, ℕ, ◌≡◌, refl, sym, Bool, true, false, not, ◌||◌, [], ◌∷◌, ◌++◌, if◌then◌else◌, any, ok,
  ◌>>=◌, ensure, >>=-eq-ok, ok-injective, ensure-eq-ok,
}
use mathlib.Core.Path.{subst}
use spawnr.Prelude.Text.{contains_text, Str, codes, contains, is_empty, starts_with, strip_prefix}
use spawnr.Prelude.Split.{contains-append}
use spawnr.Host.Oci
use spawnr.Host.Oci.{
  plain_reference, forbidden_local_transports, normalize_reference, without_tag, before, pinned,
  is_manifest_digest, immutable_pull_reference,
}

plain_docker :
    (r : Str) → plain_reference r ≡ true → plain_reference (codes "docker://" ++ r) ≡ true
plain_docker r h = ground arith

normalize_docker :
    (r : Str)
    → plain_reference r ≡ true
    → normalize_reference (codes "docker://" ++ r) ≡ ok (codes "docker://" ++ r)
unfolding normalize_reference
normalize_docker r h = rw (plain_docker r h) refl

normalize_choice :
    (b : Bool) (r r' : Str)
    → plain_reference r ≡ true
    → normalize_reference r ≡ ok r'
    → (if b
        then ok r
        else (ensure (not (contains_text (codes "://") r)) Oci.unsupported_transport >>= λ _.
            ok (codes "docker://" ++ r)))
      ≡ ok r'
    → normalize_reference r' ≡ ok r'
normalize_choice true r r' p n h = subst (λ x. normalize_reference x ≡ ok r') (ok-injective h) n
normalize_choice false r r' p n h =
    let (_, _, e) =
      >>=-eq-ok (ensure (not (contains_text (codes "://") r)) Oci.unsupported_transport) _ h in
    subst (λ x. normalize_reference x ≡ ok x) (ok-injective e) (normalize_docker r p)

-- A reference that was normalized is its own normal form.
pub normalize_reference-idempotent :
    (r r' : Str) → normalize_reference r ≡ ok r' → normalize_reference r' ≡ ok r'
unfolding normalize_reference
normalize_reference-idempotent r r' h =
    let (_, p, h1) = >>=-eq-ok (ensure (plain_reference r) Oci.invalid_reference) _ h in
    let (_, _, h2) =
      >>=-eq-ok
        (ensure (not (any (λ t. starts_with t r) forbidden_local_transports))
          Oci.unsupported_transport)
        _ h1 in
    normalize_choice (starts_with (codes "docker://") r || starts_with (codes "oci:") r) r r'
      (ensure-eq-ok _ _ p) h h2

before_append : (c : ℕ) (s t : Str) → contains c s ≡ false → before c (s ++ t) ≡ s ++ before c t
before_append c [] t h = refl
before_append c (d ∷ s) t h = ground (arith, before_append c s t)

before_all : (c : ℕ) (s : Str) → contains c s ≡ false → before c s ≡ s
before_all c [] h = refl
before_all c (d ∷ s) h = ground (arith, before_all c s)

contains-before : (c : ℕ) (s : Str) → contains c (before c s) ≡ false
contains-before c [] = refl
contains-before c (d ∷ s) = ground (arith, contains-before c s)

without_tag-colon :
    (name tag : Str)
    → contains b'/' tag ≡ false
    → contains b':' tag ≡ false
    → without_tag (name ++ (b':' ∷ tag)) ≡ name
unfolding without_tag
without_tag-colon [] tag x y = ground arith
without_tag-colon (c ∷ name) tag x y =
    ground (arith, without_tag-colon name tag x y, contains-append b':' name (b':' ∷ tag))

contains-without_tag : (c : ℕ) (s : Str) → contains c s ≡ false → contains c (without_tag s) ≡ false
unfolding without_tag
contains-without_tag c [] h = refl
contains-without_tag c (d ∷ s) h = ground (arith, contains-without_tag c s)

tag_dropped :
    (name tag : Str)
    → contains b'@' name ≡ false
    → contains b'@' tag ≡ false
    → contains b'/' tag ≡ false
    → contains b':' tag ≡ false
    → without_tag (before b'@' (name ++ (b':' ∷ tag))) ≡ name
tag_dropped name tag n a s c =
    rw (before_append b'@' name (b':' ∷ tag) n, before_all b'@' (b':' ∷ tag) a)
      (without_tag-colon name tag s c)

-- A registry reference with a tag is pulled by the digest, whatever the tag is: `name:tag` as
-- `name@digest`, for a name that is not empty and has no `@`, and a tag with none of `/`, `:`, `@`.
pub immutable_pull_reference-tag :
    (name tag digest : Str)
    → is_empty name ≡ false
    → contains b'@' name ≡ false
    → contains b'@' tag ≡ false
    → contains b'/' tag ≡ false
    → contains b':' tag ≡ false
    → is_manifest_digest (strip_prefix (codes "sha256:") digest) ≡ true
    → immutable_pull_reference (codes "docker://" ++ (name ++ (b':' ∷ tag))) digest
      ≡ ok (codes "docker://" ++ (name ++ (b'@' ∷ digest)))
unfolding immutable_pull_reference
immutable_pull_reference-tag name tag digest e n a s c d =
    rw (d, tag_dropped name tag n a s c, e) refl

-- A registry reference becomes one whose part before the digest has no `@`, so the digest is the one
-- that was asked for, of 64 hexadecimal digits.
pub immutable_pull_reference-digest :
    (name digest r : Str)
    → immutable_pull_reference (codes "docker://" ++ name) digest ≡ ok r
    → (image : Str) × (r ≡ codes "docker://" ++ (image ++ (b'@' ∷ digest)))
      × (contains b'@' image ≡ false)
      × (is_manifest_digest (strip_prefix (codes "sha256:") digest) ≡ true)
unfolding immutable_pull_reference
immutable_pull_reference-digest name digest r h =
    let image = without_tag (before b'@' name) in
    let (_, d, h1) =
      >>=-eq-ok
        (ensure (is_manifest_digest (strip_prefix (codes "sha256:") digest)) Oci.invalid_digest) _
        h in
    let (_, _, h2) = >>=-eq-ok (ensure (not (is_empty image)) Oci.invalid_reference) _ h1 in
    (
      image,
      sym (ok-injective h2),
      contains-without_tag b'@' (before b'@' name) (contains-before b'@' name),
      ensure-eq-ok _ _ d,
    )
