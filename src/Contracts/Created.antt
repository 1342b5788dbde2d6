-- ===== src/Contracts/Created.antt =====
-- What a contract that was deployed has behind it.
use nexguard_sentinel.Prelude.{
  ℕ, ◌+◌, ◌*◌, String, true, Option, none, some, List, nat_eq, nats_eq, ◌≡◌, refl, arith,
}
use nexguard_sentinel.Python.Exec.{ok, Exec}
use nexguard_sentinel.Python.Gives.{
  Gives, bind, lifts, pures, Holds, bind-Holds, lift-Holds, pure-Holds, any-Holds,
}
use nexguard_sentinel.Python.Text.{Text, starts_with_0x}
use nexguard_sentinel.Contracts.Artifacts.{
  Files, Artifact, HasFiles, code_of-OfArtifact, on_disk-Holds, on_world-Holds, print-Keeps,
  load_artifact-Holds,
}
use nexguard_sentinel.Contracts.Web3.{Web3, TxParams, Receipt}
use nexguard_sentinel.Contracts.Deploy.{
  Deployment, base_sepolia_chain_id, on_world, deployment_broadcast, known_base_fee, fee_fields,
  code_of, gas_limit, broadcast_creation, created_address, deploy_contract,
}

module _ (W : Web3) where
  -- A call returned this value, in some world.
  abbrev pub Reads : {A : Type 0} → Exec W.World A → A → Type 0
  Reads m a = (w : W.World) × ((m w).0 ≡ ok a)

  pub reads : {A : Type 0} (m : Exec W.World A) → Gives m (Reads m)
  reads m = record { gives = λ s a h. (s, h) }

  pub on_world-Gives :
      {A : Type 0} {m : Exec W.World A} {Q : A → Type 0} → Gives m Q → Gives (on_world W m) Q
  on_world-Gives g = record { gives = λ s a h. g.gives s.world a h }

  -- The fees of a transaction follow the pending block and the node.
  pub record Fees (max_fee priority_fee : ℕ) : Type 0 where
    pub base_fee : ℕ
    pub base_read : Reads W.pending_base_fee (some base_fee)
    pub priority_read : Reads W.max_priority_fee priority_fee
    pub sum : max_fee ≡ base_fee * 2 + priority_fee

  known_base_fee-some : (o : Option ℕ) (fee : ℕ) → known_base_fee W o ≡ ok fee → o ≡ some fee
  known_base_fee-some none fee h = cc
  known_base_fee-some (some x) fee h = ground arith

  fee_fields-Gives : Gives (fee_fields W) (λ fees. Fees fees.0 fees.1)
  unfolding fee_fields
  fee_fields-Gives = bind (reads W.pending_base_fee) (λ pending p.
      bind (lifts (known_base_fee W pending)) (λ base_fee k.
        bind (reads W.max_priority_fee) (λ priority_fee q. pures (record {
          base_fee = base_fee;
          base_read = (p.0, rw (← known_base_fee-some pending base_fee k) p.1);
          priority_read = q;
          sum = refl;
        }))))

  -- A creation that was built, signed and sent, for the chain and the nonce that are meant.
  pub record Sent (account : W.Account) (code : W.Abi × Text) (args : List Text) (nonce : ℕ)
      (tx_hash : W.Hash) : Type 0 where
    pub fields : TxParams
    pub on_chain : fields.chain_id ≡ base_sepolia_chain_id
    pub from_account : fields.sender ≡ W.address account
    pub with_nonce : fields.nonce ≡ nonce
    pub fees : Fees fields.max_fee fields.priority_fee
    pub payload : W.Payload
    pub built : Reads (W.build_transaction code.0 code.1 args fields) payload
    pub estimated_gas : ℕ
    pub estimated : Reads (W.estimate_gas fields payload) estimated_gas
    pub signed : W.Signed
    pub signs : W.sign_transaction account fields payload (gas_limit W estimated_gas) ≡ ok signed
    pub sent : Reads (W.send_raw_transaction signed) tx_hash

  broadcast_creation-Gives :
      (account : W.Account) (code : W.Abi × Text) (args : List Text) (nonce : ℕ)
      → Gives (broadcast_creation W account code args nonce) (Sent account code args nonce)
  unfolding broadcast_creation
  broadcast_creation-Gives account code args nonce = bind fee_fields-Gives (λ fees f.
      let fields : TxParams = record {
        chain_id = base_sepolia_chain_id;
        sender = W.address account;
        nonce = nonce;
        max_fee = fees.0;
        priority_fee = fees.1;
      } in
      bind (reads (W.build_transaction code.0 code.1 args fields)) (λ payload b.
        bind (reads (W.estimate_gas fields payload)) (λ gas g.
          bind (lifts (W.sign_transaction account fields payload (gas_limit W gas))) (λ signed s.
            record {
              gives = λ w h e. record {
                fields = fields;
                on_chain = refl;
                from_account = refl;
                with_nonce = refl;
                fees = f;
                payload = payload;
                built = b;
                estimated_gas = gas;
                estimated = g;
                signed = signed;
                signs = s;
                sent = (w, e);
              };
            }))))

  -- A contract that was built from its artifact and sent, and whose receipt reports success.
  pub record Created (files : Files) (account : W.Account) (name : String) (args : List Text)
      (nonce : ℕ) (d : Deployment) : Type 0 where
    pub named : d.name ≡ name
    pub artifact : W.Json
    pub loaded : Artifact W files name artifact
    pub code : W.Abi × Text
    pub abi : W.abi artifact ≡ ok code.0
    pub bytecode : W.bytecode artifact ≡ ok (some code.1)
    pub hexadecimal : starts_with_0x code.1 ≡ true
    pub tx_hash : W.Hash
    pub sent : Sent account code args nonce tx_hash
    pub hash : d.transaction_hash ≡ W.hex tx_hash
    pub receipt : Receipt
    pub mined : Reads (W.wait_for_transaction_receipt tx_hash) receipt
    pub succeeded : receipt.status ≡ 1
    pub raw_address : Text
    pub has_address : receipt.contract_address ≡ some raw_address
    pub address : W.to_checksum_address raw_address ≡ ok d.address
    pub block : d.block_number ≡ receipt.block_number

  created_address-success :
      (receipt : Receipt) (o : Option Text) (a : Text)
      → created_address W receipt o ≡ ok a
      → (raw : Text) × (o ≡ some raw) × (receipt.status ≡ 1) × (W.to_checksum_address raw ≡ ok a)
  created_address-success receipt none a h = cc
  created_address-success receipt (some raw) a h = (raw, refl, ground arith, ground arith)

  -- The files on which it runs are those that the artifact is read from.
  pub deploy_contract-Holds :
      (files : Files) (account : W.Account) (name : String) (args : List Text) (nonce : ℕ)
      → Holds
          (HasFiles W files)
          (deploy_contract W account name args nonce)
          (Created files account name args nonce)
  unfolding deploy_contract
  deploy_contract-Holds files account name args nonce =
      bind-Holds (on_disk-Holds W files (load_artifact-Holds W files name)) (λ artifact loaded.
        bind-Holds (lift-Holds (code_of W artifact)) (λ code of_artifact.
          bind-Holds (on_world-Holds W files (broadcast_creation-Gives account code args nonce))
            (λ tx_hash sent.
              bind-Holds
                (any-Holds (print-Keeps W files (deployment_broadcast name (W.hex tx_hash))))
                (λ _ _.
                  bind-Holds
                    (on_world-Holds W files (reads (W.wait_for_transaction_receipt tx_hash)))
                    (λ receipt mined.
                      bind-Holds (lift-Holds (created_address W receipt receipt.contract_address))
                        (λ address c.
                          let (raw, has, success, checksum) =
                            created_address-success receipt receipt.contract_address address c in
                          let (abi, bytecode, hexadecimal) =
                            code_of-OfArtifact W artifact code of_artifact in
                          pure-Holds (record {
                            named = refl;
                            artifact = artifact;
                            loaded = loaded;
                            abi = abi;
                            bytecode = bytecode;
                            hexadecimal = hexadecimal;
                            code = code;
                            tx_hash = tx_hash;
                            sent = sent;
                            hash = refl;
                            receipt = receipt;
                            mined = mined;
                            succeeded = success;
                            raw_address = raw;
                            has_address = has;
                            address = checksum;
                            block = refl;
                          })))))))
