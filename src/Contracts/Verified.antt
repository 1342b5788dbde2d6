-- ===== src/Contracts/Verified.antt =====
-- What was read back from the contracts when their deployment is verified.
use nexguard_sentinel.Prelude.{Bool, true, false, not, ◌==◌, nat_eq, nats_eq, ◌≡◌, ap, ◌∙◌, arith}
use nexguard_sentinel.Python.Exec.{ok, runtime_error}
use nexguard_sentinel.Python.Gives.{Holds, bind-Holds, lift-Holds, refuse_if-Holds, map-Holds}
use nexguard_sentinel.Python.Text.{Text}
use nexguard_sentinel.Contracts.Web3.{Web3}
use nexguard_sentinel.Contracts.Deploy.{Deployment, verify_deployment}
use nexguard_sentinel.Contracts.Artifacts.{
  Files, Artifact, HasFiles, on_disk-Holds, on_world-Holds, load_artifact-Holds,
}
use nexguard_sentinel.Contracts.Created.{Reads, reads}

module _ (W : Web3) where
  -- What was read back from the two contracts.
  pub record Verified (files : Files) (guardian vault : Deployment) (owner keeper : Text)
      : Type 0 where
    pub guardian_artifact : W.Json
    pub guardian_loaded : Artifact W files "Guardian" guardian_artifact
    pub guardian_abi : W.Abi
    pub of_guardian : W.abi guardian_artifact ≡ ok guardian_abi
    pub vault_artifact : W.Json
    pub vault_loaded : Artifact W files "DemoVault" vault_artifact
    pub vault_abi : W.Abi
    pub of_vault : W.abi vault_artifact ≡ ok vault_abi
    pub owner_read : Reads W (W.call_owner guardian_abi guardian.address) owner
    pub keeper_enabled : Reads W (W.call_keepers guardian_abi guardian.address keeper) true
    pub not_paused : Reads W (W.call_paused guardian_abi guardian.address) false
    pub guardian_read : Reads W (W.call_guardian vault_abi vault.address) guardian.address

  equal : (a b : Text) → not (a == b) ≡ false → a ≡ b
  equal a b h = ground arith

  truth : (b : Bool) → not b ≡ false → b ≡ true
  truth b h = ground arith

  pub verify_deployment-Holds :
      (files : Files) (guardian vault : Deployment) (owner keeper : Text)
      → Holds
          (HasFiles W files)
          (verify_deployment W guardian vault owner keeper)
          (λ _. Verified files guardian vault owner keeper)
  unfolding verify_deployment
  verify_deployment-Holds files guardian vault owner keeper =
      bind-Holds (on_disk-Holds W files (load_artifact-Holds W files "Guardian"))
        (λ guardian_artifact gl.
          bind-Holds (on_disk-Holds W files (load_artifact-Holds W files "DemoVault"))
            (λ vault_artifact vl. bind-Holds (lift-Holds (W.abi guardian_artifact)) (λ ga gp.
              bind-Holds (lift-Holds (W.abi vault_artifact)) (λ va vp.
                bind-Holds (on_world-Holds W files (reads W (W.call_owner ga guardian.address)))
                  (λ o r1.
                    bind-Holds
                      (refuse_if-Holds (not (o == owner))
                        (runtime_error "Guardian owner verification failed"))
                      (λ _ t1.
                        bind-Holds
                          (on_world-Holds W files
                            (reads W (W.call_keepers ga guardian.address keeper)))
                          (λ k r2.
                            bind-Holds
                              (refuse_if-Holds (not k)
                                (runtime_error "Guardian keeper verification failed"))
                              (λ _ t2.
                                bind-Holds
                                  (on_world-Holds W files
                                    (reads W (W.call_paused ga guardian.address)))
                                  (λ p r3.
                                    bind-Holds
                                      (refuse_if-Holds p
                                        (runtime_error "Guardian unexpectedly starts paused"))
                                      (λ _ t3.
                                        bind-Holds
                                          (on_world-Holds W files
                                            (reads W (W.call_guardian va vault.address)))
                                          (λ g r4.
                                            map-Holds
                                              (refuse_if-Holds (not (g == guardian.address)) (
                                                runtime_error
                                                  "DemoVault Guardian verification failed"))
                                              (λ _ t4. record {
                                                guardian_artifact = guardian_artifact;
                                                guardian_loaded = gl;
                                                guardian_abi = ga;
                                                of_guardian = gp;
                                                vault_artifact = vault_artifact;
                                                vault_loaded = vl;
                                                vault_abi = va;
                                                of_vault = vp;
                                                owner_read =
                                                    (r1.0, r1.1 ∙ ap ok (equal o owner t1));
                                                keeper_enabled = (r2.0, r2.1 ∙ ap ok (truth k t2));
                                                not_paused = (r3.0, r3.1 ∙ ap ok t3);
                                                guardian_read = (
                                                  r4.0,
                                                  r4.1 ∙ ap ok (equal g guardian.address t4),
                                                );
                                              }))))))))))))
