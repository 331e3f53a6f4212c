-- ===== src/AuditKey/Kept.antt =====
-- An audit HMAC key that was initialized (ensureDataStorageAuditHashKey and
-- reconcileExistingAuditHashKeyState of internal/controller/kubernaut_controller.go).
use kubernaut_operator.Base.{
  String, ◌≡◌, refl, sym, ◌∙◌, ap, ◌≢◌, inl, inr, true, false, ◌&&◌, ◌==◌, eq_iff, arith,
}
use kubernaut_operator.Kube.Object.{Object}
use kubernaut_operator.Kube.Op.{Error, Result, Result-cases, ok, err, wrapped, not_found}
use kubernaut_operator.Kube.Library.{Library, Texts}
use kubernaut_operator.Kube.Client.{Client, IsApiServer}
use kubernaut_operator.Ownership.{resource_ownership_error}
use kubernaut_operator.Status.{State}
use kubernaut_operator.AuditKey.{
  print_of, phase_of, validate_identity, validate_state, can_correct, secret_key_of, state_key_of,
  verify_secret, validate_effective_secret, identified, initialize_new_key, initialize_generated,
  reconcile_existing, ensure_audit_hash_key,
}
use kubernaut_operator.AuditKey.Material.{Reference, reference_for, validate_reference, fingerprint}

verify_secret_lem :
    (texts : Texts) (ref : Reference) (expected : String) (holder : Object)
    → expected ≢ ""
    → verify_secret texts ref expected holder ≡ ok tt
    → (holder.terminating ≡ false) × (fingerprint texts holder ref.secret_key ≡ ok expected)
unfolding verify_secret
verify_secret_lem texts ref expected holder h e =
    elim (Result-cases (fingerprint texts holder ref.secret_key)) [
      | inl (print, f) ↦ ground (arith, eq_iff print expected, eq_iff expected "")
      | inr (x, f) ↦ ground arith
    ]

-- A marker that records a fingerprint is past the states in which a key may be made.
not_correctable :
    (state : Object) (ref : Reference) → print_of state ≢ "" → can_correct state ref ≡ false
unfolding can_correct
not_correctable state ref h = ground (arith, eq_iff (print_of state) "")

not_provisioning :
    (state : Object)
    → print_of state ≢ ""
    → (phase_of state == "provisioning" && print_of state == "") ≡ false
not_provisioning state h = ground (arith, eq_iff (print_of state) "")

module _ (lib : Library) (texts : Texts) {c : Client} (api : IsApiServer c) where
  -- A run that only reads: no object is written, and if it succeeds, the Secret of `ref` was read
  -- with the fingerprint `expected`.
  pub record IsVerified (ref : Reference) (expected : String) (s : State c)
      (out : Result (Unit {0}) × State c) : Type 0 where
    pub unwritten : c.history out.1.world ≡ c.history s.world
    pub verified_key :
        out.0 ≡ ok tt
        → (holder : Object) × ((c.get (secret_key_of s.cr ref) s.world).0 ≡ ok holder)
          × (holder.terminating ≡ false)
          × (fingerprint texts holder ref.secret_key ≡ ok expected)

  effective-IsVerified :
      (ref : Reference) (expected : String) (s : State c)
      → expected ≢ ""
      → IsVerified ref expected s (validate_effective_secret lib texts ref expected s)
  unfolding validate_effective_secret
  effective-IsVerified ref expected s h =
      let k = secret_key_of s.cr ref in
      let reads = api.get_reads k s.world in
      elim (Result-cases (c.get k s.world).0) [
        | inl (holder, e) ↦ record {
          unwritten = rw e reads;
          verified_key = rw e (λ g.
              let (alive, print) = verify_secret_lem texts ref expected holder h g in
              (holder, refl, alive, print));
        }
        | inr (x, e) ↦ record {
          unwritten = rw e (ground arith);
          verified_key = rw e (λ g. ground arith);
        }
      ]

  IsVerified-err :
      (ref : Reference) (expected : String) (s : State c) (e : Error)
      → IsVerified ref expected s (err e, s)
  IsVerified-err ref expected s e = record { unwritten = refl; verified_key = λ h. cc }

  identified-IsVerified :
      (state : Object) (ref : Reference) (random : Result String) (s : State c)
      (r : Result (Unit {0}))
      → print_of state ≢ ""
      → IsVerified ref (print_of state) s (identified lib texts state ref random r s)
  identified-IsVerified state ref random s (err e) h =
      rw (not_correctable state ref h) (IsVerified-err ref (print_of state) s e)
  identified-IsVerified state ref random s (ok u) h =
      elim (Result-cases (validate_state state ref)) [
        | inl (v, e) ↦
            rw (not_provisioning state h, e) (effective-IsVerified ref (print_of state) s h)
        | inr (x, e) ↦ rw (not_provisioning state h, e) (IsVerified-err ref (print_of state) s x)
      ]

  reconcile_existing-IsVerified :
      (state : Object) (ref : Reference) (random : Result String) (s : State c)
      → print_of state ≢ ""
      → IsVerified ref (print_of state) s (reconcile_existing lib texts state ref random s)
  unfolding reconcile_existing
  reconcile_existing-IsVerified state ref random s h =
      elim (Result-cases (resource_ownership_error lib.parse_group s.cr state false)) [
        | inl (u, e) ↦
            rw e (identified-IsVerified state ref random s (validate_identity state ref) h)
        | inr (x, e) ↦ rw e (
            IsVerified-err ref (print_of state) s
              (wrapped "audit HMAC state configmap ownership conflict" x))
      ]

  -- Once the state marker records a fingerprint, the key is never made again: a run that reads such
  -- a marker writes no object from then on, whatever it finds. If it succeeds, the Secret was there,
  -- was not terminating, and its key has the recorded fingerprint; a missing or replaced key is an
  -- error.
  pub initialized_key_is_kept :
      (random : Result String) (s : State c) (state : Object) (w : c.World)
      → c.get (state_key_of s.cr) s.world ≡ (ok state, w)
      → print_of state ≢ ""
      → IsVerified
          (reference_for s.cr)
          (print_of state)
          (record s { world = w })
          (ensure_audit_hash_key lib texts random s)
  unfolding ensure_audit_hash_key
  initialized_key_is_kept random s state w read h =
      elim (Result-cases (validate_reference texts (reference_for s.cr))) [
        | inl (u, e) ↦
            rw (e, read)
              (reconcile_existing-IsVerified state (reference_for s.cr) random
                (record s { world = w }) h)
        | inr (x, e) ↦ rw e (record {
          unwritten =
              sym (api.get_reads (state_key_of s.cr) s.world) ∙ ap (λ p. c.history p.1) read;
          verified_key = λ g. cc;
        })
      ]

  -- A key that the operator would generate is never taken over: where the state marker is missing
  -- and a Secret of that name exists, the run fails and writes no object.
  pub adoption_is_refused :
      (random : Result String) (s : State c) (existing : Object) (w : c.World)
      → c.get (state_key_of s.cr) s.world ≡ (err not_found, w)
      → (reference_for s.cr).generated ≡ true
      → (c.get (secret_key_of s.cr (reference_for s.cr)) w).0 ≡ ok existing
      → ((e : Error) × ((ensure_audit_hash_key lib texts random s).0 ≡ err e))
        × (c.history (ensure_audit_hash_key lib texts random s).1.world ≡ c.history s.world)
  unfolding ensure_audit_hash_key initialize_new_key initialize_generated
  adoption_is_refused random s existing w read generated exists =
      let first = api.get_reads (state_key_of s.cr) s.world in
      let same : c.history w ≡ c.history s.world = sym (ap (λ p. c.history p.1) read) ∙ first in
      let second = api.get_reads (secret_key_of s.cr (reference_for s.cr)) w in
      elim (Result-cases (validate_reference texts (reference_for s.cr))) [
        | inl (u, e) ↦ rw (e, read, generated, exists) ((_, refl), second ∙ same)
        | inr (x, e) ↦ rw e ((x, refl), refl)
      ]
