-- ===== src/Host/Runtime/Required.antt =====
-- What a manifest that `RuntimeManifest::validate` accepts contains.
use spawnr.Prelude.{
  ℕ, suc, ◌≡◌, refl, sym, ◌∙◌, Bool, true, false, Option, none, some, List, [], ◌∷◌, ◌&&◌, not, any,
  find, get_elem?, ok, ensure, context, ensure-eq-ok, >>=-eq-ok, ok-injective, context-eq_ok, arith,
  Bool-cases, inl, inr, ◌⊎◌, ◌==◌,
}
use spawnr.Prelude.Text.{Str, is_empty, is_control, str_eq, eq_of_str_eq}
use spawnr.Host.Runtime.{
  Semver, ComponentKind, RuntimeManifest, RuntimeComponent, RuntimeFile, host_executable,
  guest_kernel, guest_initramfs, guest_executable, data_file, required_components, not_executable,
  invalid_component_version, unlisted_file, duplicate_component, missing_component,
  unsupported_schema, no_components, no_files,
}
use spawnr.Host.Runtime.Rules.{
  one_of, expected_component_kind, has_path, validate_component_launcher, validate_runtime_path,
  validate_component_name, ensure_sorted, parse_version, validate_target_protocol,
  validate_compatibility,
}
use spawnr.Host.Runtime.Validate.{
  is_cons, kind_eq, check_kind, validate_component, components_loop, required_loop, files_loop,
  validate_manifest,
}

abbrev pub is_program : ComponentKind → Bool
is_program host_executable = true
is_program guest_executable = true
is_program guest_kernel = false
is_program guest_initramfs = false
is_program data_file = false

-- A component as it must be: of the kind of its name, and in a listed file, which is executable for a program.
pub record Sound (files : List RuntimeFile) (c : RuntimeComponent) : Type 0 where
  pub kind_of : (k : ComponentKind) → expected_component_kind c.name ≡ some k → c.kind ≡ k
  pub file_of : RuntimeFile
  pub listed : find (has_path c.path) files ≡ some file_of
  pub runs : is_program c.kind ≡ true → file_of.executable ≡ true

kind_eq_lem : (k l : ComponentKind) → kind_eq k l ≡ true → k ≡ l
kind_eq_lem k l h = ground arith

launcher_runs :
    (k : ComponentKind) (c : RuntimeComponent) (f : RuntimeFile) (files : List RuntimeFile)
    {u : Unit {0}}
    → validate_component_launcher k c f files ≡ ok u
    → is_program k ≡ true
    → f.executable ≡ true
unfolding validate_component_launcher
launcher_runs host_executable c f files h p =
    ensure-eq-ok f.executable not_executable (>>=-eq-ok (ensure f.executable not_executable) _ h).1
launcher_runs guest_executable c f files h p =
    ensure-eq-ok f.executable not_executable (>>=-eq-ok (ensure f.executable not_executable) _ h).1
launcher_runs guest_kernel c f files h p = cc
launcher_runs guest_initramfs c f files h p = cc
launcher_runs data_file c f files h p = cc

check_kind_lem :
    (o : Option ComponentKind) (kind k : ComponentKind) {u : Unit {0}}
    → check_kind o kind ≡ ok u
    → o ≡ some k
    → kind ≡ k
check_kind_lem none kind k h eq = cc
check_kind_lem (some l) kind k h eq =
    let same : l ≡ k = cc in kind_eq_lem kind l (ensure-eq-ok _ _ h) ∙ same

component-Sound :
    (files : List RuntimeFile) (c : RuntimeComponent) {u : Unit {0}}
    → validate_component files c ≡ ok u
    → Sound files c
unfolding validate_component
component-Sound files c h =
    let (_, _, h1) =
      >>=-eq-ok
        (ensure (not (is_empty c.version) && not (any is_control c.version))
          invalid_component_version)
        _ h in
    let (_, kind, h2) = >>=-eq-ok (check_kind (expected_component_kind c.name) c.kind) _ h1 in
    let (_, _, h3) = >>=-eq-ok (validate_runtime_path c.path false) _ h2 in
    let (f, at, h4) = >>=-eq-ok (context (find (has_path c.path) files) unlisted_file) _ h3 in
    record {
      kind_of = λ k eq. check_kind_lem (expected_component_kind c.name) c.kind k kind eq;
      file_of = f;
      listed = context-eq_ok (find (has_path c.path) files) unlisted_file at;
      runs = launcher_runs c.kind c f files h4;
    }

-- A name that the loop over the components collected is a component's.
pub Found : List RuntimeFile → List RuntimeComponent → Str → Type 0
Found files components name =
    (i : ℕ) × (c : RuntimeComponent) × (get_elem? components i ≡ some c)
    × (c.name ≡ name)
    × Sound files c

components-Found :
    (files : List RuntimeFile) (seen : List Str) (previous : Option Str)
    (components : List RuntimeComponent) (names : List Str) (name : Str)
    → components_loop files seen previous components ≡ ok names
    → one_of names name ≡ true
    → (one_of seen name ≡ true) ⊎ Found files components name
unfolding components_loop Found
components-Found files seen previous [] names name h found = inl (rw (ok-injective h) found)
components-Found files seen previous (c ∷ components) names name h found =
    let (_, _, h1) = >>=-eq-ok (validate_component_name c.name) _ h in
    let (_, _, h2) = >>=-eq-ok (ensure (not (one_of seen c.name)) duplicate_component) _ h1 in
    let (_, _, h3) = >>=-eq-ok (ensure_sorted previous c.name) _ h2 in
    let (_, valid, h4) = >>=-eq-ok (validate_component files c) _ h3 in
    elim (components-Found files (c.name ∷ seen) (some c.name) components names name h4 found) [
      | inr (i, c', at, same, sound) ↦ inr (suc i, c', at, same, sound)
      | inl earlier ↦ elim (Bool-cases (str_eq name c.name)) [
        | inl here ↦
            inr (0, c, refl, sym (eq_of_str_eq name c.name here), component-Sound files c valid)
        | inr other ↦ inl (rw other at earlier)
      ]
    ]

required_found :
    (names : List Str) (required : List Str) (name : Str) {u : Unit {0}}
    → required_loop names required ≡ ok u
    → one_of required name ≡ true
    → one_of names name ≡ true
unfolding required_loop
required_found names [] name h r = cc
required_found names (q ∷ required) name h r =
    let (_, here, h1) = >>=-eq-ok (ensure (one_of names q) missing_component) _ h in
    elim (Bool-cases (str_eq name q)) [
      | inl same ↦
          rw (eq_of_str_eq name q same) (ensure-eq-ok (one_of names q) missing_component here)
      | inr other ↦ required_found names required name h1 (rw other at r)
    ]

-- A manifest that is accepted has every component that the program needs, of the kind that its name
-- asks for, in a file that the manifest lists, and executable if it is a program.
pub validate_manifest-Found :
    (v : Semver) (m : RuntimeManifest) (name : Str)
    → validate_manifest v m ≡ ok tt
    → one_of required_components name ≡ true
    → Found m.files m.components name
unfolding validate_manifest
validate_manifest-Found v m name h required =
    let (_, _, h1) = >>=-eq-ok (ensure (m.schema_version == 1) unsupported_schema) _ h in
    let (_, _, h2) = >>=-eq-ok (parse_version v m.runtime_version) _ h1 in
    let (_, _, h3) = >>=-eq-ok (validate_target_protocol m.target m.protocol_version) _ h2 in
    let (_, _, h4) = >>=-eq-ok (validate_compatibility v m.cli_compatibility) _ h3 in
    let (_, _, h5) = >>=-eq-ok (ensure (is_cons m.components) no_components) _ h4 in
    let (_, _, h6) = >>=-eq-ok (ensure (is_cons m.files) no_files) _ h5 in
    let (_, _, h7) = >>=-eq-ok (files_loop [] none m.files) _ h6 in
    let (names, loop, h8) = >>=-eq-ok (components_loop m.files [] none m.components) _ h7 in
    elim (components-Found m.files [] none m.components names name loop
      (required_found names required_components name h8 required)) [
        | inl none_seen ↦ absurd (ground arith)
        | inr found ↦ found
      ]
