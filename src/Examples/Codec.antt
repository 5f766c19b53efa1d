-- ===== src/Examples/Codec.antt =====
-- Texts for values, that are read back with what follows them: stand-ins for serde_json.
use spawnr.Prelude.{
  ℕ, zero, suc, ◌≡◌, refl, ap, ◌∙◌, Option, none, some, List, [], ◌∷◌, ◌++◌, length,
}
use spawnr.Prelude.Text.{Str}
use spawnr.Host.State.{EnvironmentRecord, MachineRecord}
use spawnr.Host.State.Store.{State, StateJson}
use spawnr.Host.Storage.{
  Json, OwnershipMarker, DomainMarker, StorageDomain, environment, workspace, session,
}

pub record Codec (A : Type 0) : Type 0 where
  pub enc : A → List ℕ
  pub dec : List ℕ → Option (A × List ℕ)
  pub dec-enc : (a : A) (more : List ℕ) → dec (enc a ++ more) ≡ some (a, more)

pub append_assoc : (xs ys zs : List ℕ) → (xs ++ ys) ++ zs ≡ xs ++ (ys ++ zs)
append_assoc [] ys zs = refl
append_assoc (x ∷ xs) ys zs = ap (λ t. x ∷ t) (append_assoc xs ys zs)

abbrev then :
    {A B : Type 0} → Option (A × List ℕ) → (A → List ℕ → Option (B × List ℕ)) → Option (B × List ℕ)
then none f = none
then (some (a, more)) f = f a more

abbrev first_number : List ℕ → Option (ℕ × List ℕ)
first_number [] = none
first_number (n ∷ more) = some (n, more)

abbrev pub number : Codec ℕ
number = record { enc = λ n. n ∷ []; dec = first_number; dec-enc = λ n more. refl }

module _ {A B : Type 0} where
  abbrev with : A → List ℕ → (List ℕ → Option (B × List ℕ)) → Option ((A × B) × List ℕ)
  with a more f = then (f more) (λ b rest. some ((a, b), rest))

  abbrev pub both : Codec A → Codec B → Codec (A × B)
  both c d = record {
    enc = λ p. c.enc p.0 ++ d.enc p.1;
    dec = λ bytes. then (c.dec bytes) (λ a more. with a more d.dec);
    dec-enc = λ p more.
        ap (λ bytes. then (c.dec bytes) (λ a rest. with a rest d.dec))
          (append_assoc (c.enc p.0) (d.enc p.1) more)
        ∙ ap (λ o. then o (λ a rest. with a rest d.dec)) (c.dec-enc p.0 (d.enc p.1 ++ more))
        ∙ ap (λ o. then o (λ b rest. some ((p.0, b), rest))) (d.dec-enc p.1 more);
  }

  -- A type whose values are made of another's.
  abbrev pub through : (f : A → B) (g : B → A) → ((a : A) → g (f a) ≡ a) → Codec B → Codec A
  through f g law c = record {
    enc = λ a. c.enc (f a);
    dec = λ bytes. then (c.dec bytes) (λ b rest. some (g b, rest));
    dec-enc = λ a more.
        ap (λ o. then o (λ b rest. some (g b, rest))) (c.dec-enc (f a) more)
        ∙ ap (λ x. some (x, more)) (law a);
  }

module _ {A : Type 0} (c : Codec A) where
  abbrev enc_all : List A → List ℕ
  enc_all [] = []
  enc_all (a ∷ items) = c.enc a ++ enc_all items

  abbrev dec_all : ℕ → List ℕ → Option (List A × List ℕ)
  dec_all zero bytes = some ([], bytes)
  dec_all (suc n) bytes =
      then (c.dec bytes) (λ a more. then (dec_all n more) (λ items rest. some (a ∷ items, rest)))

  pub dec_all-enc_all :
      (items : List A) (more : List ℕ)
      → dec_all (length items) (enc_all items ++ more) ≡ some (items, more)
  dec_all-enc_all [] more = refl
  dec_all-enc_all (a ∷ items) more =
      ap
        (λ bytes.
          then (c.dec bytes)
            (λ x m. then (dec_all (length items) m) (λ xs rest. some (x ∷ xs, rest))))
        (append_assoc (c.enc a) (enc_all items) more)
      ∙ ap (λ o. then o (λ x m. then (dec_all (length items) m) (λ xs rest. some (x ∷ xs, rest))))
          (c.dec-enc a (enc_all items ++ more))
      ∙ ap (λ o. then o (λ xs rest. some (a ∷ xs, rest))) (dec_all-enc_all items more)

  abbrev counted : List ℕ → Option (List A × List ℕ)
  counted [] = none
  counted (n ∷ more) = dec_all n more

  abbrev pub sequence : Codec (List A)
  sequence = record {
    enc = λ items. length items ∷ enc_all items;
    dec = counted;
    dec-enc = λ items more. dec_all-enc_all items more;
  }

  abbrev as_list : Option A → List A
  as_list none = []
  as_list (some a) = a ∷ []

  abbrev as_option : List A → Option A
  as_option [] = none
  as_option (a ∷ items) = some a

  pub option_list : (o : Option A) → as_option (as_list o) ≡ o
  option_list none = refl
  option_list (some a) = refl

  abbrev pub optional : Codec (Option A)
  optional = through as_list as_option option_list sequence

abbrev text : Codec Str
text = sequence number

abbrev environment_codec : Codec EnvironmentRecord
environment_codec =
    through (λ e. (e.reference, (e.manifest_digest, e.base_cache_key)))
      (λ p. record { reference = p.0; manifest_digest = p.1.0; base_cache_key = p.1.1 }) (λ e. refl)
      (both text (both (optional text) (optional text)))

abbrev machine_codec : Codec MachineRecord
machine_codec =
    through
      (λ r. (
        r.id,
        (
          r.name,
          (
            r.environment,
            (
              r.repository,
              (r.repository_dir, (r.workspace_id, (r.created_at, (r.vsock_cid, r.mac_address)))),
            ),
          ),
        ),
      ))
      (λ (id, (name, (env, (repo, (dir, (ws, (at, (cid, mac)))))))). record {
        id = id;
        name = name;
        environment = env;
        repository = repo;
        repository_dir = dir;
        workspace_id = ws;
        created_at = at;
        vsock_cid = cid;
        mac_address = mac;
      })
      (λ r. refl)
      (both number (
        both text (
          both environment_codec (
            both (optional text)
              (both (optional text) (both number (both number (both number (sequence number)))))))))

abbrev state_codec : Codec State
state_codec =
    through (λ s. (s.schema, s.machines)) (λ p. record { schema = p.0; machines = p.1 }) (λ s. refl)
      (both number (sequence (both text machine_codec)))

abbrev value_of : {A : Type 0} → Option (A × List ℕ) → Option A
value_of none = none
value_of (some (a, more)) = some a

abbrev pub state_json : StateJson
state_json = record {
  to_vec_pretty = state_codec.enc;
  from_slice = λ bytes. value_of (state_codec.dec bytes);
  from_slice-to_vec_pretty = λ s. ap value_of (state_codec.dec-enc s (10 ∷ []));
}

abbrev json_of : {A : Type 0} → Codec A → Json A
json_of c = record {
  to_vec_pretty = c.enc;
  from_reader = λ bytes. value_of (c.dec bytes);
  from_reader-to_vec_pretty = λ s. ap value_of (c.dec-enc s (10 ∷ []));
}

abbrev pub owner_json : Json OwnershipMarker
owner_json = json_of (
    through (λ m. (m.owner, (m.machine_id, m.machine_name)))
      (λ p. record { owner = p.0; machine_id = p.1.0; machine_name = p.1.1 }) (λ m. refl)
      (both text (both number text)))

abbrev number_of : StorageDomain → ℕ
number_of environment = 0
number_of workspace = 1
number_of session = 2

abbrev domain_numbered : ℕ → StorageDomain
domain_numbered zero = environment
domain_numbered (suc zero) = workspace
domain_numbered (suc (suc n)) = session

pub numbered : (d : StorageDomain) → domain_numbered (number_of d) ≡ d
numbered environment = refl
numbered workspace = refl
numbered session = refl

abbrev domain_codec : Codec StorageDomain
domain_codec = through number_of domain_numbered numbered number

abbrev pub marker_json : Json DomainMarker
marker_json = json_of (
    through (λ m. (m.owner, (m.machine_id, (m.workspace_id, m.domain))))
      (λ p. record { owner = p.0; machine_id = p.1.0; workspace_id = p.1.1.0; domain = p.1.1.1 })
      (λ m. refl) (both text (both number (both number domain_codec))))
