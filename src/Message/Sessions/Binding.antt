-- ===== src/Message/Sessions/Binding.antt =====
-- What a session proof shows, and that a challenge serves once
-- (crates/message-gateway/src/auth.rs).
use watt_gateway.Prelude.{
  ℕ, String, ◌≡◌, refl, sym, ap, ◌∙◌, true, false, not, some, arith, ◌==◌, str_eq, string_eq, Table,
  lookup, insert, lookup-insert_self, Result, ok, err, bail_if, or_bail, >>=-eq-ok, or_bail-some,
  bail_if-false, not-false,
}
use watt_gateway.Message.Config.{Config}
use watt_gateway.Message.Membership.{principal_is_admitted}
use watt_gateway.Message.Sessions.{
  AuthLibraries, AuthDb, AuthError, PrincipalClaim, PrincipalProof, ChallengeRow,
  SessionProofRequest, SessionResponse, single, open_challenge, binding_fails, check_proof,
  open_session, prove_session,
}

same_some : (a b : String) → some a ≡ some b → a ≡ b
same_some a b e = cc

consumed_is_closed :
    {Json : Type 0} (now : ℕ) (id id' : String) (row row' : ChallengeRow Json)
    (t : Table String (ChallengeRow Json))
    → id ≡ id'
    → open_challenge (lookup id' (insert id (record row { consumed_at = some now }) t)) ≡ some row'
    → ⊥
consumed_is_closed now id id' row row' t e o =
    let found =
      ap open_challenge (lookup-insert_self id (record row { consumed_at = some now }) t) in
    let same = rw (← e) at o in ground arith

module _ {Json Message : Type 0} (lib : AuthLibraries Json Message) where
  -- What the checks have found.
  pub record IsProven (now : ℕ) (request : SessionProofRequest) (db : AuthDb Json)
      (challenge_id : String) (row : ChallengeRow Json) (claim : PrincipalClaim) : Type 0 where
    pub json : Json
    pub proof : PrincipalProof
    pub message : Message
    pub one_claim : single request.principals ≡ some claim
    pub one_proof : single request.proofs ≡ some proof
    pub id_parsed : lib.parse_uuid request.challenge_id ≡ some challenge_id
    pub is_open : open_challenge (lookup challenge_id db.challenges) ≡ some row
    pub serialized : lib.to_value request.principals ≡ some json
    pub bound : binding_fails lib now request row json ≡ false
    pub same_principal : str_eq proof.principal_id claim.principal_id ≡ true
    pub admitted : principal_is_admitted db.membership now row.network_id claim.principal_id ≡ true
    pub message_of :
        lib.session_proof_message row.network_id request.principals
          (record { challenge_id = challenge_id; nonce = row.nonce; expires_at = row.expires_at })
        ≡ some message
    pub signed : lib.verify_signature claim.public_key_hex message proof.signature_hex ≡ true

  moved :
      (now : ℕ) (request : SessionProofRequest) (db : AuthDb Json) (id id' : String)
      (row row' : ChallengeRow Json) (claim claim' : PrincipalClaim)
      → id ≡ id'
      → row ≡ row'
      → claim ≡ claim'
      → IsProven now request db id row claim
      → IsProven now request db id' row' claim'
  moved now request db id id' row row' claim claim' e f g h = rw e at (rw f at (rw g at h))

  pub check-IsProven :
      (now : ℕ) (request : SessionProofRequest) (db : AuthDb Json) (challenge_id : String)
      (row : ChallengeRow Json) (claim : PrincipalClaim)
      → check_proof lib now request db ≡ ok (challenge_id, (row, claim))
      → IsProven now request db challenge_id row claim
  unfolding check_proof
  check-IsProven now request db challenge_id row claim h =
      let (cl, a1, h1) = >>=-eq-ok (or_bail (single request.principals) _) _ h in
      let (proof, a2, h2) = >>=-eq-ok (or_bail (single request.proofs) _) _ h1 in
      let (_, a3, h3) =
        >>=-eq-ok (bail_if (not (request.delivery_policy_version == lib.delivery_policy_version)) _)
          _ h2 in
      let (id, a4, h4) = >>=-eq-ok (or_bail (lib.parse_uuid request.challenge_id) _) _ h3 in
      let (found, a5, h5) = >>=-eq-ok (or_bail (open_challenge (lookup id db.challenges)) _) _ h4 in
      let (json, a6, h6) = >>=-eq-ok (or_bail (lib.to_value request.principals) _) _ h5 in
      let (_, a7, h7) = >>=-eq-ok (bail_if (binding_fails lib now request found json) _) _ h6 in
      let (_, a8, h8) =
        >>=-eq-ok (bail_if (not (str_eq proof.principal_id cl.principal_id)) _) _ h7 in
      let (_, a9, h9) =
        >>=-eq-ok
          (bail_if (not (principal_is_admitted db.membership now found.network_id cl.principal_id))
            _)
          _ h8 in
      let (message, a10, h10) =
        >>=-eq-ok
          (or_bail
            (lib.session_proof_message found.network_id request.principals
              (record { challenge_id = id; nonce = found.nonce; expires_at = found.expires_at }))
            _)
          _ h9 in
      let (_, a11, h11) =
        >>=-eq-ok
          (bail_if (not (lib.verify_signature cl.public_key_hex message proof.signature_hex)) _) _
          h10 in
      moved now request db id challenge_id found row cl claim (ground arith) (ground arith)
        (ground arith)
        (record {
          json = json;
          proof = proof;
          message = message;
          one_claim = or_bail-some _ _ a1;
          one_proof = or_bail-some _ _ a2;
          id_parsed = or_bail-some _ _ a4;
          is_open = or_bail-some _ _ a5;
          serialized = or_bail-some _ _ a6;
          bound = bail_if-false _ _ a7;
          same_principal = not-false _ (bail_if-false _ _ a8);
          admitted = not-false _ (bail_if-false _ _ a9);
          message_of = or_bail-some _ _ a10;
          signed = not-false _ (bail_if-false _ _ a11);
        })

  -- What a proof that succeeds has found and written.
  pub record IsOpened (now : ℕ) (c : Config) (session_id suffix : String)
      (request : SessionProofRequest) (db db' : AuthDb Json) (r : SessionResponse) : Type 0 where
    pub challenge_id : String
    pub row : ChallengeRow Json
    pub claim : PrincipalClaim
    pub proven : IsProven now request db challenge_id row claim
    pub opened :
        open_session lib now c session_id suffix request challenge_id row claim db ≡ ok (db', r)
    pub consumed :
        db'.challenges ≡ insert challenge_id (record row { consumed_at = some now }) db.challenges
    pub same_membership : db'.membership ≡ db.membership
    pub for_claim : r.principal_id ≡ claim.principal_id
    pub for_network : r.network_id ≡ row.network_id

  pub prove-IsOpened :
      (now : ℕ) (c : Config) (session_id suffix : String) (request : SessionProofRequest)
      (db db' : AuthDb Json) (r : SessionResponse)
      → prove_session lib now c session_id suffix request db ≡ ok (db', r)
      → IsOpened now c session_id suffix request db db' r
  unfolding prove_session open_session
  prove-IsOpened now c session_id suffix request db db' r h =
      let ((id, (row, claim)), a, b) = >>=-eq-ok (check_proof lib now request db) _ h in
      record {
        challenge_id = id;
        row = row;
        claim = claim;
        proven = check-IsProven now request db id row claim a;
        opened = b;
        consumed = ground arith;
        same_membership = ground arith;
        for_claim = ground arith;
        for_network = ground arith;
      }

  -- A challenge serves once: after a proof that succeeds, every proof with the same challenge fails,
  -- whoever sends it and whenever.
  pub challenge_single_use :
      (now later : ℕ) (c : Config) (session_id session_id' suffix suffix' : String)
      (request request' : SessionProofRequest) (db db' : AuthDb Json) (r : SessionResponse)
      → prove_session lib now c session_id suffix request db ≡ ok (db', r)
      → lib.parse_uuid request'.challenge_id ≡ lib.parse_uuid request.challenge_id
      → (e : AuthError) × (prove_session lib later c session_id' suffix' request' db' ≡ err e)
  challenge_single_use now later c session_id session_id' suffix suffix' request request' db db' r h
        same =
      at (prove_session lib later c session_id' suffix' request' db') refl
    where
      first : IsOpened now c session_id suffix request db db' r
      first = prove-IsOpened now c session_id suffix request db db' r h

      at :
          (x : Result AuthError (AuthDb Json × SessionResponse))
          → prove_session lib later c session_id' suffix' request' db' ≡ x
          → (e : AuthError) × (prove_session lib later c session_id' suffix' request' db' ≡ err e)
      at (err e) k = (e, k)
      at (ok (d, r')) k =
          let second = prove-IsOpened later c session_id' suffix' request' db' d r' k in
          absurd (
            consumed_is_closed now first.challenge_id second.challenge_id first.row second.row
              db.challenges
              (same_some _ _ (sym first.proven.id_parsed ∙ sym same ∙ second.proven.id_parsed))
              (rw first.consumed at second.proven.is_open))
