-- ===== src/Message/Sessions/Owner.antt =====
-- Who gets a session: the holder of the key that is the principal's name
-- (crates/message-gateway/src/auth.rs).
use watt_gateway.Prelude.{
  ℕ, ◌<◌, String, ◌≡◌, sym, ap, ◌∙◌, inl, inr, true, false, not, Option, none, some, List, [], ◌∷◌,
  arith, str_eq, eq_iff, string_eq, Table, lookup, insert, Result, ok, err, bail_if, or_bail,
  >>=-eq-ok, or_bail-some, bail_if-false, not-false, All, Bool-cases, Option-cases,
}
use watt_gateway.Message.Config.{Config, is_some, is_some_and}
use watt_gateway.Message.Membership.{principal_is_admitted}
use watt_gateway.Message.Sessions.{
  AuthLibraries, AuthDb, AuthError, PrincipalClaim, ChallengeRow, ChallengeRequest,
  ChallengeResponse, SessionProofRequest, SessionResponse, single, open_challenge,
  instance_id_is_invalid, binding_fails, create_challenge, prove_session,
}
use watt_gateway.Message.Sessions.Binding.{prove-IsOpened}

module _ {Json Message : Type 0} (lib : AuthLibraries Json Message) where
  -- A stored challenge is for one claim, whose principal is its public key.
  abbrev pub IsForKey : ChallengeRow Json → Type 0
  IsForKey row =
      (claim : PrincipalClaim) × (lib.to_value (claim ∷ []) ≡ some row.principals_json)
      × (claim.principal_id ≡ claim.public_key_hex)

  abbrev pub AllForKeys : AuthDb Json → Type 0
  AllForKeys db = All (λ kv. IsForKey kv.1) db.challenges

  insert-AllForKeys :
      (key : String) (row : ChallengeRow Json) (t : Table String (ChallengeRow Json))
      → IsForKey row
      → All (λ kv. IsForKey kv.1) t
      → All (λ kv. IsForKey kv.1) (insert key row t)
  unfolding insert
  insert-AllForKeys key row [] k h = (k, tt)
  insert-AllForKeys key row ((j, r) ∷ t) k h = elim (Bool-cases (str_eq j key)) [
    | inl b ↦ rw b (k, h.1)
    | inr b ↦ rw b (h.0, insert-AllForKeys key row t k h.1)
  ]

  lookup-IsForKey :
      (key : String) (row : ChallengeRow Json) (t : Table String (ChallengeRow Json))
      → lookup key t ≡ some row
      → All (λ kv. IsForKey kv.1) t
      → IsForKey row
  unfolding lookup
  lookup-IsForKey key row [] e h = absurd (cc)
  lookup-IsForKey key row ((j, r) ∷ t) e h = elim (Bool-cases (str_eq j key)) [
    | inl b ↦ rw (same_some r row (rw b at e)) at h.0
    | inr b ↦ lookup-IsForKey key row t (rw b at e) h.1
  ]
    where
      same_some : (a b : ChallengeRow Json) → some a ≡ some b → a ≡ b
      same_some a b e = cc

  single_list :
      (ps : List PrincipalClaim) (claim : PrincipalClaim) → single ps ≡ some claim → ps ≡ claim ∷ []
  single_list [] claim h = absurd (cc)
  single_list (p ∷ []) claim h = ground arith
  single_list (p ∷ q ∷ ps) claim h = absurd (cc)

  proven_row :
      (db : AuthDb Json) (id : String) (row : ChallengeRow Json)
      → AllForKeys db
      → open_challenge (lookup id db.challenges) ≡ some row
      → IsForKey row
  proven_row db id row k h =
      lookup-IsForKey id row db.challenges (opened (lookup id db.challenges) h) k
    where
      opened :
          (found : Option (ChallengeRow Json)) → open_challenge found ≡ some row → found ≡ some row
      opened none e = absurd (cc)
      opened (some r) e = ground arith

  -- A challenge that is created leaves each stored challenge for the claim of one principal whose
  -- name is its public key.
  pub create-AllForKeys :
      (now : ℕ) (challenge_id nonce : String) (request : ChallengeRequest) (db db' : AuthDb Json)
      (r : ChallengeResponse)
      → AllForKeys db
      → create_challenge lib now challenge_id nonce request db ≡ ok (db', r)
      → AllForKeys db'
  unfolding create_challenge
  create-AllForKeys now challenge_id nonce request db db' r k h =
      let (claim, a1, h1) = >>=-eq-ok (or_bail (single request.principals) _) _ h in
      let (_, a2, h2) =
        >>=-eq-ok (bail_if (not (str_eq claim.principal_id claim.public_key_hex)) _) _ h1 in
      let (_, a3, h3) =
        >>=-eq-ok (bail_if (is_some_and instance_id_is_invalid claim.tenant_instance_id) _) _ h2 in
      let (_, a4, h4) =
        >>=-eq-ok
          (bail_if
            (not (principal_is_admitted db.membership now request.network_id claim.principal_id)) _)
          _ h3 in
      let (json, a5, h5) = >>=-eq-ok (or_bail (lib.to_value request.principals) _) _ h4 in
      let (_, a6, h6) = >>=-eq-ok (bail_if (is_some (lookup challenge_id db.challenges)) _) _ h5 in
      let written : db'.challenges ≡ insert challenge_id _ db.challenges =
        ap (λ (x : Result _ _). challenges_of x) (sym h6) in
      rw written (
        insert-AllForKeys challenge_id _ db.challenges
          (
            claim,
            sym (ap lib.to_value (single_list request.principals claim (or_bail-some _ _ a1)))
                ∙ or_bail-some _ _ a5,
            (eq_iff claim.principal_id claim.public_key_hex).0 (not-false _ (bail_if-false _ _ a2)),
          )
          k)
    where
      challenges_of :
          Result AuthError (AuthDb Json × ChallengeResponse) → Table String (ChallengeRow Json)
      challenges_of (ok (d, r)) = d.challenges
      challenges_of (err e) = []

  -- A proof that succeeds leaves each stored challenge for the claim of one principal whose name is
  -- its public key.
  pub prove-AllForKeys :
      (now : ℕ) (c : Config) (session_id suffix : String) (request : SessionProofRequest)
      (db db' : AuthDb Json) (r : SessionResponse)
      → AllForKeys db
      → prove_session lib now c session_id suffix request db ≡ ok (db', r)
      → AllForKeys db'
  prove-AllForKeys now c session_id suffix request db db' r k h =
      let o = prove-IsOpened lib now c session_id suffix request db db' r h in
      rw o.consumed (
        insert-AllForKeys o.challenge_id (record o.row { consumed_at = some now }) db.challenges
          (proven_row db o.challenge_id o.row k o.proven.is_open) k)

  -- Where the stored challenges are for keys, and different claims have different JSON, a session is
  -- for a principal whose own key, its name, signed the message of an open challenge that had not
  -- expired, and that was admitted in the network of the session.
  pub session_owner_signed :
      (now : ℕ) (c : Config) (session_id suffix : String) (request : SessionProofRequest)
      (db db' : AuthDb Json) (r : SessionResponse)
      → ((a b : List PrincipalClaim) (j : Json)
          → lib.to_value a ≡ some j
          → lib.to_value b ≡ some j
          → a ≡ b)
      → AllForKeys db
      → prove_session lib now c session_id suffix request db ≡ ok (db', r)
      → (id : String) × (row : ChallengeRow Json) × (message : Message) × (signature : String)
        × (lookup id db.challenges ≡ some row)
        × (row.consumed_at ≡ none)
        × (now < row.expires_at)
        × (row.network_id ≡ r.network_id)
        × (lib.session_proof_message r.network_id request.principals
              (record { challenge_id = id; nonce = row.nonce; expires_at = row.expires_at })
            ≡ some message)
        × (lib.verify_signature r.principal_id message signature ≡ true)
        × (principal_is_admitted db.membership now r.network_id r.principal_id ≡ true)
  session_owner_signed now c session_id suffix request db db' r inj k h =
      let o = prove-IsOpened lib now c session_id suffix request db db' r h in
      let q = o.proven in
      let (claim, json, is_key) = proven_row db o.challenge_id o.row k q.is_open in
      let (same_json, in_time) = binding_holds now request o.row q.json q.bound in
      let same : claim ∷ [] ≡ o.claim ∷ [] = inj _ _ o.row.principals_json json (
        rw (← single_list request.principals o.claim q.one_claim)
          (q.serialized ∙ ap some (sym same_json))) in
      let key : o.claim.principal_id ≡ o.claim.public_key_hex = heads same is_key in
      let (found, is_new) = opened_row (lookup o.challenge_id db.challenges) o.row q.is_open in
      (
        o.challenge_id,
        o.row,
        q.message,
        q.proof.signature_hex,
        found,
        is_new,
        in_time,
        sym o.for_network,
        rw o.for_network q.message_of,
        rw (o.for_claim, key) q.signed,
        rw (o.for_network, o.for_claim) q.admitted,
      )
    where
      heads :
          {a b : PrincipalClaim}
          → a ∷ [] ≡ b ∷ []
          → a.principal_id ≡ a.public_key_hex
          → b.principal_id ≡ b.public_key_hex
      heads e h = ground arith

      binding_holds :
          (now : ℕ) (request : SessionProofRequest) (row : ChallengeRow Json) (json : Json)
          → binding_fails lib now request row json ≡ false
          → (row.principals_json ≡ json) × (now < row.expires_at)
      binding_holds now request row json h =
          ((lib.json_eq.beq_iff row.principals_json json).0 (ground arith), ground arith)

      opened_row :
          (x : Option (ChallengeRow Json)) (row : ChallengeRow Json)
          → open_challenge x ≡ some row
          → (x ≡ some row) × (row.consumed_at ≡ none)
      opened_row none row e = absurd (cc)
      opened_row (some r) row e = elim (Option-cases r.consumed_at) [
        | inl n ↦ ground arith
        | inr (t, f) ↦ absurd (ground arith)
      ]
