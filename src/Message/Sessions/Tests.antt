-- ===== src/Message/Sessions/Tests.antt =====
-- A principal that proves its key, and what the theorems say of its session.
use watt_gateway.Prelude.{
  ◌<◌, String, ◌≡◌, ◌↔◌, refl, sym, ap, ◌∙◌, Bool, true, false, ◌&&◌, Option, none, some, List, [],
  ◌∷◌, arith, str_eq, eq_iff, string_eq, pair_eq, lookup, insert, is_blank, is_whitespace, Result,
  ok, err,
}
use watt_gateway.Message.Config.Tests.{sample}
use watt_gateway.Message.Membership.{principal_is_admitted}
use watt_gateway.Message.Membership.Mutation.Tests.{network, genesis_is_admitted}
use watt_gateway.Message.Sessions.{
  AuthLibraries, AuthDb, AuthError, PrincipalClaim, ChallengeRow, ChallengeRequest,
  ChallengeResponse, SessionProofRequest, SessionResponse, current_mailbox_only, create_challenge,
  prove_session, check_proof, open_session, verify_bearer, session_is_taken, principal_is_taken,
}
use watt_gateway.Message.Sessions.Binding.{challenge_single_use}
use watt_gateway.Message.Sessions.Owner.{
  AllForKeys, create-AllForKeys, prove-AllForKeys, session_owner_signed,
}
use watt_gateway.Message.Sessions.Bearer.{names_session, bearer_verifies}

abbrev same_text : Option String → Option String → Bool
same_text none none = true
same_text (some a) (some b) = str_eq a b
same_text _ _ = false

same_text_iff : (a b : Option String) → (same_text a b ≡ true) ↔ (a ≡ b)
same_text_iff none none = (λ h. refl, λ h. refl)
same_text_iff none (some b) = (λ h. cc, λ h. cc)
same_text_iff (some a) none = (λ h. cc, λ h. cc)
same_text_iff (some a) (some b) = (λ h. ap some ((eq_iff a b).0 h), λ h. (eq_iff a b).1 (cc))

abbrev same_claim : PrincipalClaim → PrincipalClaim → Bool
same_claim a b =
    str_eq a.principal_id b.principal_id
    && str_eq a.public_key_hex b.public_key_hex
    && same_text a.tenant_instance_id b.tenant_instance_id

abbrev same_claims : List PrincipalClaim → List PrincipalClaim → Bool
same_claims [] [] = true
same_claims (a ∷ rest) (b ∷ bs) = same_claim a b && same_claims rest bs
same_claims _ _ = false

same_claim_iff : (a b : PrincipalClaim) → (same_claim a b ≡ true) ↔ (a ≡ b)
same_claim_iff a b = (to, from)
  where
    to : same_claim a b ≡ true → a ≡ b
    to h =
        let p = (eq_iff a.principal_id b.principal_id).0 (ground arith) in
        let k = (eq_iff a.public_key_hex b.public_key_hex).0 (ground arith) in
        let t = (same_text_iff a.tenant_instance_id b.tenant_instance_id).0 (ground arith) in
        λ i. record { principal_id = p i; public_key_hex = k i; tenant_instance_id = t i }

    from : a ≡ b → same_claim a b ≡ true
    from h =
        let p =
          (eq_iff a.principal_id b.principal_id).1
            (ap (λ (c : PrincipalClaim). c.principal_id) h) in
        let k =
          (eq_iff a.public_key_hex b.public_key_hex).1
            (ap (λ (c : PrincipalClaim). c.public_key_hex) h) in
        let t =
          (same_text_iff a.tenant_instance_id b.tenant_instance_id).1
            (ap (λ (c : PrincipalClaim). c.tenant_instance_id) h) in
        ground arith

same_claims_iff : (a b : List PrincipalClaim) → (same_claims a b ≡ true) ↔ (a ≡ b)
same_claims_iff [] [] = (λ h. refl, λ h. refl)
same_claims_iff [] (b ∷ bs) = (λ h. cc, λ h. cc)
same_claims_iff (a ∷ rest) [] = (λ h. cc, λ h. cc)
same_claims_iff (a ∷ rest) (b ∷ bs) = (
  λ h.
      let p = (same_claim_iff a b).0 (ground arith) in
      let q = (same_claims_iff rest bs).0 (ground arith) in λ i. p i ∷ q i,
  λ h.
      let p = (same_claim_iff a b).1 (cc) in
      let q = (same_claims_iff rest bs).1 (cc) in ground arith,
)

some_injective : (a b : List PrincipalClaim) → some a ≡ some b → a ≡ b
some_injective a b e = cc

-- The JSON of claims is the claims, and a signature is the text `signed` with the key.
abbrev libraries : AuthLibraries (List PrincipalClaim) String
libraries = record {
  json_eq = record { beq = same_claims; beq_iff = same_claims_iff };
  to_value = λ claims. some claims;
  parse_uuid = λ text. some text;
  session_proof_message = λ network claims challenge. some challenge.nonce;
  verify_signature = λ key message signature. str_eq key "genesis" && str_eq signature message;
  hash_token = λ token. token;
  ttl_in_range = λ ms. true;
  delivery_policy_version = 1;
}

abbrev claim : PrincipalClaim
claim = record { principal_id = "genesis"; public_key_hex = "genesis"; tenant_instance_id = none }

abbrev empty : AuthDb (List PrincipalClaim)
empty = record {
  challenges = [];
  sessions = [];
  session_principals = [];
  instances = [];
  membership = network;
}

abbrev challenge : ChallengeRow (List PrincipalClaim)
challenge = record {
  network_id = "network";
  principals_json = claim ∷ [];
  nonce = "nonce";
  expires_at = 120010;
  consumed_at = none;
}

abbrev challenged : AuthDb (List PrincipalClaim)
challenged = record empty { challenges = ("challenge", challenge) ∷ [] }

abbrev response : ChallengeResponse
response = record { challenge_id = "challenge"; nonce = "nonce"; expires_at = 120010 }

abbrev asks : ChallengeRequest
asks = record { network_id = "network"; principals = claim ∷ [] }

creates : create_challenge libraries 10 "challenge" "nonce" asks empty ≡ ok (challenged, response)
unfolding create_challenge lookup insert
creates = rw (genesis_is_admitted 10) refl

challenged-AllForKeys : AllForKeys libraries challenged
challenged-AllForKeys = ((claim, refl, refl), tt)

create-AllForKeys_run : AllForKeys libraries challenged
create-AllForKeys_run =
    create-AllForKeys libraries 10 "challenge" "nonce" asks empty challenged response tt creates

abbrev answers : SessionProofRequest
answers = record {
  network_id = "network";
  challenge_id = "challenge";
  delivery_policy_version = 1;
  principals = claim ∷ [];
  proofs = record { principal_id = "genesis"; signature_hex = "nonce" } ∷ [];
}

abbrev state_or :
    AuthDb (List PrincipalClaim)
    → Result AuthError (AuthDb (List PrincipalClaim) × SessionResponse)
    → AuthDb (List PrincipalClaim)
state_or db (ok (d, r)) = d
state_or db (err e) = db

abbrev session : SessionResponse
session = record {
  session_token = "session.suffix";
  network_id = "network";
  principal_id = "genesis";
  delivery_policy_version = 1;
  history_status = current_mailbox_only;
  expires_at = 900020;
}

abbrev proven : AuthDb (List PrincipalClaim)
proven = record challenged {
  challenges = ("challenge", record challenge { consumed_at = some 20 }) ∷ [];
  sessions =
      record {
        session_id = "session";
        token_hash = "session.suffix";
        network_id = "network";
        expires_at = 900020;
      }
      ∷ [];
  session_principals =
      record { session_id = "session"; principal_id = "genesis"; expires_at = 900020 } ∷ [];
}

proves :
    prove_session libraries 20 sample "session" "suffix" answers challenged ≡ ok (proven, session)
unfolding prove_session check_proof open_session lookup insert session_is_taken principal_is_taken
proves = rw (genesis_is_admitted 20) refl

prove-AllForKeys_run : AllForKeys libraries proven
prove-AllForKeys_run =
    prove-AllForKeys libraries 20 sample "session" "suffix" answers challenged proven session
      challenged-AllForKeys proves

challenge_single_use_example :
    (e : AuthError) × (prove_session libraries 30 sample "session2" "suffix" answers proven ≡ err e)
challenge_single_use_example =
    challenge_single_use libraries 20 30 sample "session" "session2" "suffix" "suffix" answers
      answers challenged proven session proves refl

session_owner_signed_example :
    (id : String) × (row : ChallengeRow (List PrincipalClaim)) × (message : String)
    × (signature : String) × (lookup ⦃e = string_eq⦄ id challenged.challenges ≡ some row)
    × (row.consumed_at ≡ none)
    × (20 < row.expires_at)
    × (row.network_id ≡ "network")
    × (libraries.session_proof_message "network"
          (claim ∷ [])
          (record { challenge_id = id; nonce = row.nonce; expires_at = row.expires_at })
        ≡ some message)
    × (libraries.verify_signature "genesis" message signature ≡ true)
    × (principal_is_admitted network 20 "network" "genesis" ≡ true)
session_owner_signed_example =
    session_owner_signed libraries 20 sample "session" "suffix" answers challenged proven session
      (λ a b j e f. some_injective a b (e ∙ sym f)) challenged-AllForKeys proves

bearer_verifies_example :
    verify_bearer libraries 1000 "session.suffix" proven
    ≡ ok (record { session_id = "session"; network_id = "network"; principal_id = "genesis" })
unfolding names_session is_blank is_whitespace
bearer_verifies_example =
    bearer_verifies libraries 20 1000 sample "session" "suffix" answers challenged proven session
      refl proves refl (omega arith) (genesis_is_admitted 1000)
