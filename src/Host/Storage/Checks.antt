-- ===== src/Host/Storage/Checks.antt =====
-- What the checks of the markers read and accept.
use mathlib.Core.Path.{subst}
use spawnr.Prelude.{
  ℕ, ◌≡◌, ◌%◌, ◌==◌, ==_iff, refl, sym, ap, true, Option, none, some, List, Result, ok, err, ensure,
  arith, ok-injective, ensure-eq-ok, context-eq_ok, &&-eq_true,
}
use spawnr.Prelude.Text.{str_eq_iff}
use spawnr.Prelude.Actions.{◌>>◌, give}
use spawnr.Host.State.{MachineRecord}
use spawnr.Host.Files.{
  PathBuf, join, Node, directory, file, link, Error, Nodes, Disk, is_insecure, look-eq_ok,
  inspecting, reading,
}
use spawnr.Host.Files.Calls.{symlink_metadata, read_regular, regular}
use spawnr.Host.Files.Looks.{
  >>=-eq_ok, Looks, >>=-Looks, give-Looks, symlink_metadata-Looks, read_regular-Looks,
}
use spawnr.Host.Storage.{
  Site, Json, MachinePaths, StorageDomain, environment, workspace, session, private_directory,
  private_as, assert_private_directory, read_json_regular, assert_owned, assert_domain,
  assert_domain_layout, ownership_of, domain_of, domain_file, marker_matches, domain_eq,
  domain_code, OwnershipMarker, DomainMarker, spawnr_owner,
}
use spawnr.Host.Storage.Layout.{IsPrivate, Marked, Owned, Domain, Laid}

-- A value only with the condition.
abbrev Only : {A : Type 0} → (A → Nodes → Type 0) → Result Error A → Nodes → Type 0
Only Q (ok a) n = Q a n
Only Q (err e) n = Unit {0}

same_owner :
    (a b : OwnershipMarker)
    → a.owner ≡ b.owner
    → a.machine_id ≡ b.machine_id
    → a.machine_name ≡ b.machine_name
    → a ≡ b
same_owner a b e f g = cc

same_domain :
    (a b : DomainMarker)
    → a.owner ≡ b.owner
    → a.machine_id ≡ b.machine_id
    → a.workspace_id ≡ b.workspace_id
    → a.domain ≡ b.domain
    → a ≡ b
same_domain a b e f g h = cc

code_injective : (a b : StorageDomain) → domain_code a ≡ domain_code b → a ≡ b
unfolding domain_code
code_injective environment environment h = refl
code_injective environment workspace h = ground arith
code_injective environment session h = ground arith
code_injective workspace environment h = ground arith
code_injective workspace workspace h = refl
code_injective workspace session h = ground arith
code_injective session environment h = ground arith
code_injective session workspace h = ground arith
code_injective session session h = refl

module _ (s : Site) where
  pub assert_private_directory-Looks : (p : PathBuf) → Looks (assert_private_directory s p)
  unfolding assert_private_directory
  assert_private_directory-Looks p =
      >>=-Looks (symlink_metadata-Looks s.device p)
        (λ m. give-Looks (private_directory s.device.euid m))

  pub read_json_regular-Looks :
      {A : Type 0} (json : Json A) (p : PathBuf) → Looks (read_json_regular s json p)
  unfolding read_json_regular
  read_json_regular-Looks json p =
      >>=-Looks (read_regular-Looks s.device p)
        (λ c. >>=-Looks (give-Looks _) (λ done. give-Looks _))

  pub assert_owned-Looks : (p : MachinePaths) (r : MachineRecord) → Looks (assert_owned s p r)
  unfolding assert_owned
  assert_owned-Looks p r = >>=-Looks (assert_private_directory-Looks p.root) (λ done.
      >>=-Looks (read_json_regular-Looks s.ownership_json p.owner_marker) (λ marker. give-Looks _))

  private_as-eq_ok :
      (euid mode uid : ℕ)
      → private_as (mode % 64 == 0) (uid == euid) ≡ ok tt
      → (mode % 64 ≡ 0) × (uid ≡ euid)
  unfolding private_as
  private_as-eq_ok euid mode uid h = ground arith

  private_directory-eq_ok :
      (n : Node) → private_directory s.device.euid n ≡ ok tt → IsPrivate s.device.euid (some n)
  unfolding private_directory
  private_directory-eq_ok (directory mode uid) h =
      let (closed, ours) = private_as-eq_ok s.device.euid mode uid h in
      record { mode = mode; is_there = ap (λ u. some (directory mode u)) ours; closed = closed }
  private_directory-eq_ok (file mode content) h = cc
  private_directory-eq_ok (link t) h = cc

  pub assert_private_directory-eq_ok :
      (p : PathBuf) (t : Disk)
      → (assert_private_directory s p t).0 ≡ ok tt
      → IsPrivate s.device.euid (t.nodes p)
  unfolding assert_private_directory symlink_metadata give
  assert_private_directory-eq_ok p t h =
      let (n, e, g) =
        >>=-eq_ok (symlink_metadata s.device p) (λ m. give (private_directory s.device.euid m)) t
          h in
      subst (λ o. IsPrivate s.device.euid o)
        (sym (context-eq_ok (t.nodes p) _ (look-eq_ok s.device inspecting p _ t e)))
        (private_directory-eq_ok n g)

  pub regular-eq_ok :
      (o : Option Node) (mode : ℕ) (content : List ℕ)
      → regular o ≡ ok (mode, content)
      → o ≡ some (file mode content)
  regular-eq_ok none mode content h = cc
  regular-eq_ok (some (directory m u)) mode content h = cc
  regular-eq_ok (some (file m c)) mode content h = ap (λ x. some (file x.0 x.1)) (ok-injective h)
  regular-eq_ok (some (link l)) mode content h = cc

  pub read_json_regular-eq_ok :
      {A : Type 0} (json : Json A) (p : PathBuf) (t : Disk) {value : A}
      → (read_json_regular s json p t).0 ≡ ok value
      → Marked json value (t.nodes p)
  unfolding read_json_regular read_regular give
  read_json_regular-eq_ok json p t h =
      let ((mode, content), e, g) = >>=-eq_ok (read_regular s.device p) _ t h in
      let (_, closed, k) = >>=-eq_ok (give (ensure (mode % 64 == 0) is_insecure)) _ _ g in
      record {
        mode = mode;
        content = content;
        is_there = regular-eq_ok (t.nodes p) mode content (look-eq_ok s.device reading p _ t e);
        closed = (==_iff (mode % 64) 0).0 (ensure-eq-ok _ _ closed);
        reads = context-eq_ok _ _ k;
      }

  owner_same :
      (r : MachineRecord) (m : OwnershipMarker) → marker_matches s r m ≡ true → m ≡ ownership_of r
  unfolding marker_matches
  owner_same r m h =
      let (ab, c) = &&-eq_true _ _ h in
      let (a, b) = &&-eq_true _ _ ab in
      same_owner m (ownership_of r) ((str_eq_iff m.owner spawnr_owner).0 a)
        ((==_iff m.machine_id r.id).0 b) ((str_eq_iff m.machine_name r.name).0 c)

  domain_same : (a b : DomainMarker) → domain_eq a b ≡ true → a ≡ b
  unfolding domain_eq domain_code
  domain_same a b h =
      let (xyz, w) = &&-eq_true _ _ h in
      let (xy, z) = &&-eq_true _ _ xyz in
      let (x, y) = &&-eq_true _ _ xy in
      same_domain a b ((str_eq_iff a.owner b.owner).0 x) ((==_iff a.machine_id b.machine_id).0 y)
        ((==_iff a.workspace_id b.workspace_id).0 z)
        (code_injective a.domain b.domain
          ((==_iff (domain_code a.domain) (domain_code b.domain)).0 w))

  -- A tree that is accepted belongs to the record: the directory is real, private and the user's, and
  -- its marker names the record's identifier and name.
  pub assert_owned-eq_ok :
      (p : MachinePaths) (r : MachineRecord) (t : Disk)
      → (assert_owned s p r t).0 ≡ ok tt
      → Owned s p r t.nodes
  unfolding assert_owned give
  assert_owned-eq_ok p r t h =
      let (_, private, g) = >>=-eq_ok (assert_private_directory s p.root) _ t h in
      let (m, e, k) = >>=-eq_ok (read_json_regular s s.ownership_json p.owner_marker) _ _ g in
      record {
        directory = assert_private_directory-eq_ok p.root t private;
        marker =
            subst (λ v. Marked s.ownership_json v (t.nodes p.owner_marker))
              (owner_same r m (ensure-eq-ok _ _ k))
              (subst (λ n. Marked s.ownership_json m (n p.owner_marker))
                ((assert_private_directory-Looks p.root).same t)
                (read_json_regular-eq_ok s.ownership_json p.owner_marker _ e));
      }

  assert_domain-eq_ok :
      (r : MachineRecord) (dir : PathBuf) (domain : StorageDomain) (t : Disk)
      → (assert_domain s r dir domain t).0 ≡ ok tt
      → Domain s r dir domain t.nodes
  unfolding assert_domain give
  assert_domain-eq_ok r dir domain t h =
      let (_, private, g) = >>=-eq_ok (assert_private_directory s dir) _ t h in
      let (m, e, k) = >>=-eq_ok (read_json_regular s s.domain_json (join dir domain_file)) _ _ g in
      record {
        directory = assert_private_directory-eq_ok dir t private;
        marker =
            subst (λ v. Marked s.domain_json v (t.nodes (join dir domain_file)))
              (domain_same m (domain_of r domain) (ensure-eq-ok _ _ k))
              (subst (λ n. Marked s.domain_json m (n (join dir domain_file)))
                ((assert_private_directory-Looks dir).same t)
                (read_json_regular-eq_ok s.domain_json (join dir domain_file) _ e));
      }

  pub assert_domain-Looks :
      (r : MachineRecord) (dir : PathBuf) (domain : StorageDomain)
      → Looks (assert_domain s r dir domain)
  unfolding assert_domain
  assert_domain-Looks r dir domain = >>=-Looks (assert_private_directory-Looks dir) (λ done.
      >>=-Looks (read_json_regular-Looks s.domain_json (join dir domain_file))
        (λ marker. give-Looks _))

  pub layout_two-Looks :
      (p : MachinePaths) (r : MachineRecord)
      → Looks (
          assert_owned s p r
          >> assert_domain s r p.environment_dir environment
          >> assert_domain s r p.workspace_dir workspace)
  layout_two-Looks p r =
      >>=-Looks
        (>>=-Looks (assert_owned-Looks p r)
          (λ done. assert_domain-Looks r p.environment_dir environment))
        (λ done. assert_domain-Looks r p.workspace_dir workspace)

  pub assert_domain_layout-Looks :
      (p : MachinePaths) (r : MachineRecord) → Looks (assert_domain_layout s p r)
  unfolding assert_domain_layout
  assert_domain_layout-Looks p r =
      >>=-Looks (layout_two-Looks p r) (λ done. assert_domain-Looks r p.session_dir session)

  pub assert_domain_layout-eq_ok :
      (p : MachinePaths) (r : MachineRecord) (t : Disk)
      → (assert_domain_layout s p r t).0 ≡ ok tt
      → Laid s p r t.nodes
  unfolding assert_domain_layout
  assert_domain_layout-eq_ok p r t h =
      let (_, two, third) =
        >>=-eq_ok
          (assert_owned s p r
            >> assert_domain s r p.environment_dir environment
            >> assert_domain s r p.workspace_dir workspace)
          _ t h in
      let (_, one, second) =
        >>=-eq_ok (assert_owned s p r >> assert_domain s r p.environment_dir environment) _ t two in
      let (_, owned, first) = >>=-eq_ok (assert_owned s p r) _ t one in
      record {
        owned = assert_owned-eq_ok p r t owned;
        of_environment =
            subst (λ n. Domain s r p.environment_dir environment n)
              ((assert_owned-Looks p r).same t)
              (assert_domain-eq_ok r p.environment_dir environment _ first);
        of_workspace =
            subst (λ n. Domain s r p.workspace_dir workspace n)
              ((>>=-Looks (assert_owned-Looks p r)
                  (λ done. assert_domain-Looks r p.environment_dir environment)).same
                t)
              (assert_domain-eq_ok r p.workspace_dir workspace _ second);
        of_session =
            subst (λ n. Domain s r p.session_dir session n) ((layout_two-Looks p r).same t)
              (assert_domain-eq_ok r p.session_dir session _ third);
      }
