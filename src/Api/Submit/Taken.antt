-- ===== src/Api/Submit/Taken.antt =====
-- What `SubmitSignedTx` of api/rest/handler.go takes in.
use abcfe.Base.{
  List, [], ◌∷◌, none, some, Bool, if◌then◌else◌, ◌≡◌, refl, ap, ◌∙◌, subst, arith, inl, inr, ◌⊎◌,
  Option-cases, ◌==◌, ==_self,
}
use abcfe.Base.Assoc.{lookup, insert}
use abcfe.Core.Types.{Signature, Bytes, TxInput, Transaction, Config}
use abcfe.Core.Errors.{Result, ok, Result-cases, guard, tx_hash_mismatch}
use abcfe.Core.Crypto.{Crypto}
use abcfe.Core.Store.{LevelDb}
use abcfe.Core.Store.Text.{hash_to_string}
use abcfe.Core.Mempool.{new_transaction}
use abcfe.Core.Genesis.{Hex}
use abcfe.Core.Chain.{Chain}
use abcfe.Core.Validate.{erase_signatures, validate_tx_hash}
use abcfe.Core.Transfer.{validate_tx_signatures}
use abcfe.Api.Response.{status_ok, bad_request, internal_server_error, string_to_hash}
use abcfe.Api.Submit.{
  SignedTxInput, SubmitSignedTxReq, Outcome, parse_signatures, parse_inputs, parse_outputs,
  sign_parsed, convert_signed_tx_req_to_tx, pool_and_send, submit_signed_tx,
}

ok_eq : {A : Type 0} {a b : A} → Result.ok a ≡ ok b → a ≡ b
ok_eq e = cc

-- Taking the signatures out again gives the inputs that were hashed.
erase-sign_parsed :
    (hex : Hex) (keys : List (Signature × Bytes)) (is : List SignedTxInput) (inputs : List TxInput)
    → parse_inputs hex keys is ≡ ok inputs
    → erase_signatures (sign_parsed keys inputs) ≡ inputs
unfolding parse_inputs sign_parsed
erase-sign_parsed hex keys [] inputs h =
    subst (λ x. erase_signatures (sign_parsed keys x) ≡ x) (ok_eq h) refl
erase-sign_parsed hex [] (i ∷ is) inputs h =
    subst (λ x. erase_signatures (sign_parsed [] x) ≡ x) (ok_eq h) refl
erase-sign_parsed hex ((s, key) ∷ keys) (i ∷ is) inputs h =
    elim (Option-cases (string_to_hash hex i.tx_id)) [
      | inl e ↦ ground (arith, h, e)
      | inr (id, e) ↦ elim (Result-cases (parse_inputs hex keys is)) [
        | inr (x, e') ↦ ground (arith, h, e, e')
        | inl (rest, e') ↦
            let first : TxInput = record {
              tx_id = id;
              output_index = i.output_index;
              signature = 0;
              public_key = key;
            } in
            let same : first ∷ rest ≡ inputs = ground (arith, h, e, e') in
            subst (λ x. erase_signatures (sign_parsed ((s, key) ∷ keys) x) ≡ x) same
              (ap (λ ins. first ∷ ins) (erase-sign_parsed hex keys is rest e'))
      ]
    ]

convert-validate_tx_hash :
    (c : Crypto) (hex : Hex) (network : Bytes) (req : SubmitSignedTxReq) (tx : Transaction)
    → convert_signed_tx_req_to_tx c hex network req ≡ ok tx
    → validate_tx_hash c tx ≡ ok tt
unfolding convert_signed_tx_req_to_tx validate_tx_hash
convert-validate_tx_hash c hex network req tx h =
    elim (Result-cases (parse_signatures hex req.inputs)) [
      | inr (x, e) ↦ ground (arith, h, e)
      | inl (keys, e) ↦ elim (Result-cases (parse_inputs hex keys req.inputs)) [
        | inr (x, e') ↦ ground (arith, h, e, e')
        | inl (inputs, e') ↦ elim (Result-cases (parse_outputs hex req.outputs)) [
          | inr (x, e'') ↦ ground (arith, h, e, e', e'')
          | inl (outputs, e'') ↦
              let made : Transaction = record {
                version = req.version;
                network_id = network;
                id = 0;
                timestamp = req.timestamp;
                inputs = inputs;
                outputs = outputs;
                memo = req.memo;
                payload = req.payload;
              } in
              let signed : Transaction = record made {
                id = c.hash_tx made;
                inputs = sign_parsed keys inputs;
              } in
              let same : signed ≡ tx = ground (arith, h, e, e', e'') in
              subst (λ t. validate_tx_hash c t ≡ ok tt) same
                (ap
                    (λ ins.
                      guard (c.hash_tx made == c.hash_tx (record made { inputs = ins }))
                        tx_hash_mismatch)
                    (erase-sign_parsed hex keys req.inputs inputs e')
                  ∙ rw (==_self (c.hash_tx made)) refl)
        ]
      ]
    ]

module _ (cfg : Config) (c : Crypto) (ldb : LevelDb) (hex : Hex) where
  open ldb use {Db}

  -- The transaction of the request is in the mempool, and goes to the peers if there are any.
  pub record IsTaken (has_p2p : Bool) (req : SubmitSignedTxReq) (ch : Chain Db)
      (o : Outcome Db Bytes) : Type 0 where
    pub tx : Transaction
    pub asked : convert_signed_tx_req_to_tx c hex cfg.network_id req ≡ ok tx
    pub hashed : validate_tx_hash c tx ≡ ok tt
    pub signed : validate_tx_signatures cfg c ldb ch.db tx.id tx.inputs ≡ ok tt
    pub new : lookup tx.id ch.mempool ≡ none
    pub chain :
        o.chain ≡ record ch { mempool = insert tx.id (record { tx = tx; fee = 0 }) ch.mempool }
    pub relayed : o.broadcast ≡ (if has_p2p then some tx else none)
    pub answer : (o.response.status ≡ status_ok) × (o.response.body ≡ ok (hash_to_string tx.id))

  -- Nothing is changed or sent, and the answer is an error.
  pub record IsRefused (ch : Chain Db) (o : Outcome Db Bytes) : Type 0 where
    pub chain : o.chain ≡ ch
    pub relayed : o.broadcast ≡ none
    pub answer : (o.response.status ≡ bad_request) ⊎ (o.response.status ≡ internal_server_error)

  -- `SubmitSignedTx` either changes nothing, sends nothing and answers 400 or 500, or it answers 200
  -- and puts the transaction of the request into the mempool and sends it: then the transaction has
  -- the ID that `ValidateTxHash` wants, `ValidateTxSignatures` accepts its inputs, and it was not in
  -- the mempool.
  pub submit_signed_tx-IsTaken :
      (has_p2p : Bool) (ch : Chain Db) (req : SubmitSignedTxReq)
      → IsRefused ch (submit_signed_tx cfg c ldb hex has_p2p ch (some req))
        ⊎ IsTaken has_p2p req ch (submit_signed_tx cfg c ldb hex has_p2p ch (some req))
  unfolding submit_signed_tx pool_and_send new_transaction
  submit_signed_tx-IsTaken has_p2p ch req =
      elim (Result-cases (convert_signed_tx_req_to_tx c hex cfg.network_id req)) [
        | inr (x, e) ↦ inl (record {
          chain = ground (arith, e);
          relayed = ground (arith, e);
          answer = inl (ground (arith, e));
        })
        | inl (tx, e) ↦
            elim (Result-cases (validate_tx_signatures cfg c ldb ch.db tx.id tx.inputs)) [
              | inr (x, e') ↦ inl (record {
                chain = ground (arith, e, e');
                relayed = ground (arith, e, e');
                answer = inl (ground (arith, e, e'));
              })
              | inl (t, e') ↦ elim (Option-cases (lookup tx.id ch.mempool)) [
                | inr (old, l) ↦ inl (record {
                  chain = ground (arith, e, e', l);
                  relayed = ground (arith, e, e', l);
                  answer = inr (ground (arith, e, e', l));
                })
                | inl l ↦ inr (record {
                  tx = tx;
                  asked = e;
                  hashed = convert-validate_tx_hash c hex cfg.network_id req tx e;
                  signed = e';
                  new = l;
                  chain = ground (arith, e, e', l);
                  relayed = ground (arith, e, e', l);
                  answer = (ground (arith, e, e', l), ground (arith, e, e', l));
                })
              ]
            ]
      ]
