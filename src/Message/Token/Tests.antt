-- ===== src/Message/Token/Tests.antt =====
-- A token of the unit test of crates/message-gateway/src/commit_token.rs, and what the theorems say
-- of it.
use watt_gateway.Prelude.{
  ℕ, ◌+◌, ◌-◌, ◌<◌, ◌≡◌, refl, sym, ap, ap₂, Bool, true, false, ◌&&◌, none, some, [], ◌∷◌, ◌++◌,
  arith, ◌==◌, if◌then◌else◌, Bytes, bytes_beq, bytes_beq_iff, ok, err, Bool-cases, inl, inr,
}
use watt_gateway.Message.Bucket.{interactive, class_eq}
use watt_gateway.Message.Token.{
  CommitClaims, TokenLibraries, mac_mismatch, split_once, issue, verify,
}
use watt_gateway.Message.Token.Laws.{has_dot, verify-issue, verify_lem}

abbrev claims : CommitClaims
claims = record {
  page_id = 1 ∷ [];
  network_id = 2 ∷ [];
  principal_id = 3 ∷ [];
  delivery_class = interactive;
  owner_instance_id = 4 ∷ [];
  consumer_epoch = 5;
  expires_at = 100;
}

abbrev is_claims : CommitClaims → Bool
is_claims x =
    bytes_beq x.page_id (1 ∷ [])
    && bytes_beq x.network_id (2 ∷ [])
    && bytes_beq x.principal_id (3 ∷ [])
    && class_eq.beq x.delivery_class interactive
    && bytes_beq x.owner_instance_id (4 ∷ [])
    && x.consumer_epoch == 5
    && x.expires_at == 100

is_claims_lem : (x : CommitClaims) → is_claims x ≡ true → claims ≡ x
is_claims_lem x h =
    let a = (bytes_beq_iff x.page_id (1 ∷ [])).0 (ground arith) in
    let b = (bytes_beq_iff x.network_id (2 ∷ [])).0 (ground arith) in
    let c = (bytes_beq_iff x.principal_id (3 ∷ [])).0 (ground arith) in
    let d = (class_eq.beq_iff x.delivery_class interactive).0 (ground arith) in
    let e = (bytes_beq_iff x.owner_instance_id (4 ∷ [])).0 (ground arith) in
    let f : x.consumer_epoch ≡ 5 = ground arith in
    let g : x.expires_at ≡ 100 = ground arith in
    sym (λ i. record {
      page_id = a i;
      network_id = b i;
      principal_id = c i;
      delivery_class = d i;
      owner_instance_id = e i;
      consumer_epoch = f i;
      expires_at = g i;
    })

-- A byte is written as one character above the dot.
abbrev shift_up : Bytes → Bytes
shift_up [] = []
shift_up (c ∷ cs) = (c + 47) ∷ shift_up cs

abbrev shift_down : Bytes → Bytes
shift_down [] = []
shift_down (c ∷ cs) = (c - 47) ∷ shift_down cs

abbrev libraries : TokenLibraries
libraries = record {
  to_vec = λ x. if is_claims x then some (1 ∷ []) else none;
  from_slice = λ b. if bytes_beq b (1 ∷ []) then some claims else none;
  hmac_sha256 = λ secret payload. secret ++ payload;
  hex_encode = shift_up;
  hex_decode = λ b. some (shift_down b);
  token_is_allowed = λ text. true;
}

no_dot : (b : Bytes) → has_dot (shift_up b) ≡ false
no_dot [] = refl
no_dot (c ∷ cs) = ground (arith, no_dot cs)

read_back : (b : Bytes) → shift_down (shift_up b) ≡ b
read_back [] = refl
read_back (c ∷ cs) = ap₂ (λ (x : ℕ) (xs : Bytes). x ∷ xs) (back c) (read_back cs)
  where
    back : (n : ℕ) → n + 47 - 47 ≡ n
    back n = omega arith

json_read_back :
    (x : CommitClaims) (b : Bytes) → libraries.to_vec x ≡ some b → libraries.from_slice b ≡ some x
json_read_back x b h = elim (Bool-cases (is_claims x)) [
  | inl e ↦
      let same : 1 ∷ [] ≡ b = one_byte b (rw e at h) in rw (← same) (ap some (is_claims_lem x e))
  | inr e ↦ absurd (no_bytes b (rw e at h))
]
  where
    one_byte : (b : Bytes) → some (1 ∷ []) ≡ some b → 1 ∷ [] ≡ b
    one_byte b h = cc

    no_bytes : (b : Bytes) → none ≡ some b → ⊥
    no_bytes b h = cc

abbrev token : Bytes
token = 48 ∷ 46 ∷ 54 ∷ 48 ∷ []

token_is_issued : issue libraries (7 ∷ []) claims ≡ ok token
unfolding issue
token_is_issued = refl

verify-issue_example : verify libraries (7 ∷ []) token 99 ≡ ok claims
verify-issue_example =
    verify-issue libraries (7 ∷ []) claims token 99 no_dot (λ b. ap some (read_back b))
      json_read_back token_is_issued

token_verifies : verify libraries (7 ∷ []) token 99 ≡ ok claims
unfolding verify split_once
token_verifies = refl

other_secret_fails : verify libraries (8 ∷ []) token 99 ≡ err mac_mismatch
unfolding verify split_once
other_secret_fails = refl

verify_lem_example :
    (before : Bytes) × (after : Bytes) × (payload : Bytes) × (split_once token
      ≡ some (before, after))
    × (libraries.hex_decode before ≡ some payload)
    × (libraries.hex_decode after ≡ some (libraries.hmac_sha256 (7 ∷ []) payload))
    × (libraries.from_slice payload ≡ some claims)
    × (99 < 100)
verify_lem_example = verify_lem libraries (7 ∷ []) token claims 99 token_verifies
