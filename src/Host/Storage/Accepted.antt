-- ===== src/Host/Storage/Accepted.antt =====
-- When the checks of the markers accept a layout.
use mathlib.Core.Path.{subst}
use spawnr.Prelude.{
  ℕ, ◌≡◌, ◌%◌, ◌==◌, ==_iff, sym, ap, ◌∙◌, Bool, true, none, ok, ensure, context, arith, ◌↔◌,
}
use spawnr.Prelude.Text.{str_eq_iff}
use spawnr.Prelude.Actions.{◌>>◌, give}
use spawnr.Host.State.{MachineRecord}
use spawnr.Host.Files.{
  PathBuf, join, directory, Disk, Device, is_insecure, bad_marker, other_owner, other_domain,
  look-works, inspecting, reading,
}
use spawnr.Host.Files.Calls.{symlink_metadata, entry, read_regular, regular}
use spawnr.Host.Files.Looks.{>>=-goes_on, >>=-Looks}
use spawnr.Host.Storage.{
  Site, Json, MachinePaths, StorageDomain, environment, workspace, private_directory, private_as,
  assert_private_directory, read_json_regular, assert_owned, assert_domain, assert_domain_layout,
  ownership_of, domain_of, domain_file, marker_matches, domain_eq, spawnr_owner,
}
use spawnr.Host.Storage.Layout.{IsPrivate, Marked, Owned, Domain, Laid}
use spawnr.Host.Storage.Checks.{
  assert_private_directory-Looks, assert_owned-Looks, assert_domain-Looks, layout_two-Looks,
  assert_domain_layout-eq_ok,
}

-- Metadata can be read, and files too.
pub record Readable (d : Device) (p : PathBuf) : Type 0 where
  pub inspected : (t : ℕ) → d.breaks t inspecting p ≡ none
  pub read : (t : ℕ) → d.breaks t reading p ≡ none

module _ (s : Site) where
  private_accepted :
      (mode : ℕ)
      → mode % 64 ≡ 0
      → private_directory s.device.euid (directory mode s.device.euid) ≡ ok tt
  unfolding private_directory private_as
  private_accepted mode h = ground arith

  assert_private_directory-accepts :
      (p : PathBuf) (t : Disk)
      → Readable s.device p
      → IsPrivate s.device.euid (t.nodes p)
      → (assert_private_directory s p t).0 ≡ ok tt
  unfolding assert_private_directory symlink_metadata give
  assert_private_directory-accepts p t r i =
      >>=-goes_on (symlink_metadata s.device p) (λ m. give (private_directory s.device.euid m)) t
        (directory i.mode s.device.euid)
        (look-works s.device inspecting p (λ n. entry (n p)) t (r.inspected t.clock)
          ∙ ap entry i.is_there)
        (private_accepted i.mode i.closed)

  ensured : {E : Type 0} (b : Bool) (e : E) → b ≡ true → ensure b e ≡ ok tt
  ensured b e h = ap (λ x. ensure x e) h

  read_json_regular-accepts :
      {A : Type 0} (json : Json A) (p : PathBuf) (t : Disk) (value : A)
      → Readable s.device p
      → Marked json value (t.nodes p)
      → (read_json_regular s json p t).0 ≡ ok value
  unfolding read_json_regular read_regular give
  read_json_regular-accepts json p t value r i =
      >>=-goes_on (read_regular s.device p) _ t (i.mode, i.content)
        (look-works s.device reading p (λ n. regular (n p)) t (r.read t.clock)
          ∙ ap regular i.is_there)
        (>>=-goes_on (give (ensure (i.mode % 64 == 0) is_insecure)) _ _ tt
          (ensured (i.mode % 64 == 0) is_insecure ((==_iff (i.mode % 64) 0).1 i.closed))
          (ap (λ o. context o bad_marker) i.reads))

  pub assert_owned-accepts :
      (p : MachinePaths) (r : MachineRecord) (t : Disk)
      → Readable s.device p.root
      → Readable s.device p.owner_marker
      → Owned s p r t.nodes
      → (assert_owned s p r t).0 ≡ ok tt
  unfolding assert_owned give marker_matches
  assert_owned-accepts p r t a b o =
      >>=-goes_on (assert_private_directory s p.root) _ t tt
        (assert_private_directory-accepts p.root t a o.directory)
        (>>=-goes_on (read_json_regular s s.ownership_json p.owner_marker) _ _ (ownership_of r)
          (read_json_regular-accepts s.ownership_json p.owner_marker _ (ownership_of r) b (
            subst (λ n. Marked s.ownership_json (ownership_of r) (n p.owner_marker))
              (sym ((assert_private_directory-Looks s p.root).same t)) o.marker))
          (ensured (marker_matches s r (ownership_of r)) other_owner (own_marker r)))
    where
      own_marker : (r : MachineRecord) → marker_matches s r (ownership_of r) ≡ true
      own_marker r = ground (arith, str_eq_iff spawnr_owner spawnr_owner, str_eq_iff r.name r.name)

  assert_domain-accepts :
      (r : MachineRecord) (dir : PathBuf) (domain : StorageDomain) (t : Disk)
      → Readable s.device dir
      → Readable s.device (join dir domain_file)
      → Domain s r dir domain t.nodes
      → (assert_domain s r dir domain t).0 ≡ ok tt
  unfolding assert_domain give domain_eq
  assert_domain-accepts r dir domain t a b o =
      >>=-goes_on (assert_private_directory s dir) _ t tt
        (assert_private_directory-accepts dir t a o.directory)
        (>>=-goes_on (read_json_regular s s.domain_json (join dir domain_file)) _ _
          (domain_of r domain)
          (read_json_regular-accepts s.domain_json (join dir domain_file) _ (domain_of r domain) b (
            subst (λ n. Marked s.domain_json (domain_of r domain) (n (join dir domain_file)))
              (sym ((assert_private_directory-Looks s dir).same t)) o.marker))
          (ensured (domain_eq (domain_of r domain) (domain_of r domain)) other_domain
            (own_domain r domain)))
    where
      own_domain :
          (r : MachineRecord) (domain : StorageDomain)
          → domain_eq (domain_of r domain) (domain_of r domain) ≡ true
      own_domain r domain = ground (arith, str_eq_iff spawnr_owner spawnr_owner)

  -- Where every path can be read, the layout is accepted exactly when the machine's directory and its
  -- three domains are real directories of the user's that no other can enter, each with its marker in
  -- a file that no other can read, and the markers are those of the record.
  pub assert_domain_layout-Laid :
      (p : MachinePaths) (r : MachineRecord) (t : Disk)
      → ((q : PathBuf) → Readable s.device q)
      → ((assert_domain_layout s p r t).0 ≡ ok tt) ↔ Laid s p r t.nodes
  unfolding assert_domain_layout
  assert_domain_layout-Laid p r t a = (
    assert_domain_layout-eq_ok s p r t,
    λ l.
        >>=-goes_on
          (assert_owned s p r
            >> assert_domain s r p.environment_dir environment
            >> assert_domain s r p.workspace_dir workspace)
          _ t tt
          (>>=-goes_on (assert_owned s p r >> assert_domain s r p.environment_dir environment) _ t
            tt
            (>>=-goes_on (assert_owned s p r) _ t tt
              (assert_owned-accepts p r t (a p.root) (a p.owner_marker) l.owned)
              (domain_later _ l.of_environment ((assert_owned-Looks s p r).same t)))
            (domain_later _ l.of_workspace (
              (>>=-Looks (assert_owned-Looks s p r)
                  (λ done. assert_domain-Looks s r p.environment_dir environment)).same
                t)))
          (domain_later _ l.of_session ((layout_two-Looks s p r).same t)),
  )
    where
      domain_later :
          {dir : PathBuf} {domain : StorageDomain} (u : Disk)
          → Domain s r dir domain t.nodes
          → u.nodes ≡ t.nodes
          → (assert_domain s r dir domain u).0 ≡ ok tt
      domain_later {dir} {domain} u o e =
          assert_domain-accepts r dir domain u (a dir) (a (join dir domain_file))
            (subst (λ n. Domain s r dir domain n) (sym e) o)
