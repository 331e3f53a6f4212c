-- ===== src/Startup/Gate.antt =====
-- What holds when the validation lets the reconciliation go on (phaseValidate of
-- internal/controller/kubernaut_controller.go).
use mathlib.Core.Path.{subst}
use kubernaut_operator.Base.{String, ◌≡◌, sym, ap, ◌∙◌, none, []}
use kubernaut_operator.Kube.Object.{Object}
use kubernaut_operator.Kube.Op.{Result, ok, Op}
use kubernaut_operator.Kube.Library.{Library, Texts}
use kubernaut_operator.Kube.Client.{Client, IsApiServer}
use kubernaut_operator.Status.{State, Requeue, no_requeue}
use kubernaut_operator.AuditKey.{ensure_audit_hash_key}
use kubernaut_operator.AuditKey.Material.{entries_of}
use kubernaut_operator.Credentials.{validate_postgresql_secret, validate_valkey_secret}
use kubernaut_operator.Credentials.Accepted.{IsAccepted, validate_postgresql_secret_iff}
use kubernaut_operator.Migration.{postgresql_key}
use kubernaut_operator.Validation.Checks.{◌+++◌}
use kubernaut_operator.Validation.Accept.{◌⊗◌}
use kubernaut_operator.Validation.Go.{Go}
use kubernaut_operator.Validation.Whole.{validate_kubernaut, IsValidSpec, validate_kubernaut_iff}
use kubernaut_operator.Validation.Fleet.{validate_fleet}
use kubernaut_operator.Validation.Fleet.Rules.{IsValidFleet}
use kubernaut_operator.Validation.Fleet.Accepted.{fleet_iff}
use kubernaut_operator.Precreated.References.{precreated_references}
use kubernaut_operator.Precreated.Keys.{KeyMaterial, validate_precreated_phase}
use kubernaut_operator.Precreated.Accepted.{AllPass}
use kubernaut_operator.Precreated.Phase.{precreated_phase_iff, precreated_stops}
use kubernaut_operator.Startup.{
  valkey_secret_key, unless_handled, validate_database_inputs, phase_validate,
}
use kubernaut_operator.Startup.Checks.{
  Stops, then_passes, then-Stops, goes_on, secret_passes, IsHost, check_passes, check_input-Stops,
  no_errors, check_input-IsHost,
}

module _ (lib : Library) (texts : Texts) (random : Result String) {c : Client} where
  -- The key for the audit was provisioned, the hosts are well formed, and both Secrets were read and
  -- accepted; `t` is where the checks end.
  pub record DatabasePasses (s t : State c) : Type 0 where
    pub keyed : State c
    pub key_is_there : ensure_audit_hash_key lib texts random s ≡ (ok tt, keyed)
    pub postgresql_host : IsHost keyed.cr.spec.postgresql_host
    pub valkey_host : IsHost keyed.cr.spec.valkey_host
    pub postgresql : Object
    pub between : c.World
    pub postgresql_read : c.get (postgresql_key keyed.cr) keyed.world ≡ (ok postgresql, between)
    pub postgresql_accepted : IsAccepted texts (entries_of postgresql.body)
    pub valkey : Object
    pub valkey_read : c.get (valkey_secret_key keyed.cr) between ≡ (ok valkey, t.world)
    pub valkey_accepted : validate_valkey_secret texts (entries_of valkey.body) ≡ ok tt
    pub unchanged : t.cr ≡ keyed.cr

  database_passes :
      (s t : State c)
      → validate_database_inputs lib texts random s ≡ (ok none, t)
      → DatabasePasses s t
  unfolding validate_database_inputs
  database_passes s t h =
      let (s1, a, h1) = then_passes _ _ s t h in
      let (s2, b, h2) = then_passes _ _ s1 t h1 in
      let (s3, d, h3) = then_passes _ _ s2 t h2 in
      let (s4, e, h4) = then_passes _ _ s3 t h3 in
      let (pg_host, same1) =
        check_input-IsHost lib "PostgreSQLHostInvalid" "PostgreSQL host validation failed"
          (λ kn. kn.spec.postgresql_host) s1 s2 b in
      let (vk_host, same2) =
        check_input-IsHost lib "ValkeyHostInvalid" "Valkey host validation failed"
          (λ kn. kn.spec.valkey_host) s2 s3 d in
      let (pg, pg_read, pg_ok, same3) =
        secret_passes "reading PostgreSQL secret" postgresql_key (validate_postgresql_secret texts)
          s3 s4 (check_passes lib _ _ _ s3 s4 e) in
      let (vk, vk_read, vk_ok, same4) =
        secret_passes "reading Valkey secret" valkey_secret_key (validate_valkey_secret texts) s4 t
          (check_passes lib _ _ _ s4 t h4) in
      record {
        keyed = s3;
        key_is_there =
            check_passes lib _ _ _ s s1 a ∙ ap (λ (x : State c). (ok tt, x)) (same1 ∙ same2);
        postgresql_host =
            subst (λ (x : State c). IsHost x.cr.spec.postgresql_host) (same1 ∙ same2) pg_host;
        valkey_host = subst (λ (x : State c). IsHost x.cr.spec.valkey_host) same2 vk_host;
        postgresql = pg;
        between = s4.world;
        postgresql_read = pg_read;
        postgresql_accepted = (validate_postgresql_secret_iff texts (entries_of pg.body)).0 pg_ok;
        valkey = vk;
        valkey_read = ap (λ kn. c.get (valkey_secret_key kn) s4.world) (sym same3) ∙ vk_read;
        valkey_accepted = vk_ok;
        unchanged = same4 ∙ same3;
      }

  validate_database_inputs-Stops : Stops {c = c} (validate_database_inputs lib texts random)
  unfolding validate_database_inputs
  validate_database_inputs-Stops = then-Stops _ _ (check_input-Stops lib texts _ _ _) (
      then-Stops _ _ (check_input-Stops lib texts _ _ _) (
        then-Stops _ _ (check_input-Stops lib texts _ _ _)
          (then-Stops _ _ (check_input-Stops lib texts _ _ _) (check_input-Stops lib texts _ _ _))))

  -- What holds where the checks of the database, of the spec and of the pre-created objects end.
  pub record IsValidated (go : Go) (material : KeyMaterial) (rest : Op (State c) Requeue)
      (s : State c) : Type 0 where
    pub checked : State c
    pub database : DatabasePasses s checked
    pub valid_spec : IsValidSpec go checked.cr.spec
    pub valid_fleet : IsValidFleet go checked.cr.spec
    pub named : (precreated_references checked.cr.spec).errs ≡ []
    pub precreated :
        AllPass material c checked.cr.namespace
          (precreated_references checked.cr.spec).references
          checked.world
    pub finished : (rest (validate_precreated_phase lib material checked).1).0 ≡ ok no_requeue

  module _ (api : IsApiServer c) where
    -- If the validation asks for no later run, then the provisioning of the key for the audit
    -- succeeded, the hosts are well formed, the Secrets of the database and of the cache were read
    -- and accepted, the spec and its fleet are valid, every pre-created object was read and passes,
    -- and what is behind these checks asks for no later run either.
    pub phase_validate_gate :
        (go : Go) (material : KeyMaterial) (rest : Op (State c) Requeue) (s : State c)
        → (phase_validate lib texts random go material rest s).0 ≡ ok no_requeue
        → IsValidated go material rest s
    unfolding phase_validate
    phase_validate_gate go material rest s h =
        let (t, e, after) =
          goes_on (validate_database_inputs lib texts random) _ s validate_database_inputs-Stops
            h in
        let kn = t.cr in
        let phase = unless_handled (validate_precreated_phase lib material) rest in
        let (none_found, going) =
          no_errors lib texts (validate_kubernaut go kn.spec +++ validate_fleet go kn.spec) phase t
            after in
        let (valid, fleet) =
          (validate_kubernaut_iff go kn.spec ⊗ fleet_iff go kn.spec).0 none_found in
        let (u, f, last) =
          goes_on (validate_precreated_phase lib material) rest t
            (precreated_stops lib texts material) going in
        let (named, passes) = (precreated_phase_iff lib material api t).0 (ap (λ p. p.0) f) in
        record {
          checked = t;
          database = database_passes s t e;
          valid_spec = valid;
          valid_fleet = fleet;
          named = named;
          precreated = passes;
          finished = ap (λ (x : State c). (rest x).0) (ap (λ p. p.1) f) ∙ last;
        }
