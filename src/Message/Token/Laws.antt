-- ===== src/Message/Token/Laws.antt =====
-- A token verifies to the claims that it was issued for, and to nothing else
-- (crates/message-gateway/src/commit_token.rs).
use watt_gateway.Prelude.{
  ℕ, ◌<◌, ◌≡◌, refl, ap, Bool, true, false, not, some, [], ◌∷◌, ◌++◌, arith, leb, ◌==◌,
  if◌then◌else◌, Bytes, bytes_beq, bytes_beq_iff, ok, err, bail_if, or_bail, ◌>>◌, >>=-eq-ok,
  or_bail-some, bail_if-false, not-false,
}
use watt_gateway.Message.Token.{
  CommitClaims, TokenLibraries, expired, dot, split_once, issue, verify,
}

abbrev pub has_dot : Bytes → Bool
has_dot [] = false
has_dot (c ∷ cs) = if c == dot then true else has_dot cs

split-append :
    (before after : Bytes)
    → has_dot before ≡ false
    → split_once (before ++ dot ∷ after) ≡ some (before, after)
unfolding split_once
split-append [] after h = refl
split-append (c ∷ cs) after h = ground (arith, split-append cs after)

module _ (lib : TokenLibraries) (secret : Bytes) where
  -- Where hex and JSON are read back as they were written, and hex has no dot, a token that is issued
  -- verifies under the same secret before its expiry to its claims, and from then on is expired.
  pub verify-issue :
      (claims : CommitClaims) (token : Bytes) (now_ms : ℕ)
      → ((b : Bytes) → has_dot (lib.hex_encode b) ≡ false)
      → ((b : Bytes) → lib.hex_decode (lib.hex_encode b) ≡ some b)
      → ((x : CommitClaims) (b : Bytes) → lib.to_vec x ≡ some b → lib.from_slice b ≡ some x)
      → issue lib secret claims ≡ ok token
      → verify lib secret token now_ms
        ≡ (if leb claims.expires_at now_ms then err expired else ok claims)
  unfolding issue verify
  verify-issue claims token now_ms no_dot hex json h =
      let (payload, a, h1) = >>=-eq-ok (or_bail (lib.to_vec claims) _) _ h in
      let (_, b, h2) = >>=-eq-ok (bail_if (not (lib.token_is_allowed _)) _) _ h1 in
      let mac = lib.hmac_sha256 secret payload in
      let text : lib.hex_encode payload ++ dot ∷ lib.hex_encode mac ≡ token = ground arith in
      let same : bytes_beq mac mac ≡ true = (bytes_beq_iff mac mac).1 refl in
      rw
        (
          ← text,
          split-append (lib.hex_encode payload) (lib.hex_encode mac) (no_dot payload),
          hex payload,
          hex mac,
          same,
          json claims payload (or_bail-some _ _ a),
        )
        (at_expiry claims (leb claims.expires_at now_ms))
    where
      at_expiry :
          (x : CommitClaims) (b : Bool)
          → (bail_if b expired >> ok x) ≡ (if b then err expired else ok x)
      at_expiry x true = refl
      at_expiry x false = refl

  -- A token that verifies is a payload and its MAC under the secret, both in hex: no claims pass that
  -- the secret has not authenticated, and none that have expired.
  pub verify_lem :
      (token : Bytes) (claims : CommitClaims) (now_ms : ℕ)
      → verify lib secret token now_ms ≡ ok claims
      → (before : Bytes) × (after : Bytes) × (payload : Bytes) × (split_once token
          ≡ some (before, after))
        × (lib.hex_decode before ≡ some payload)
        × (lib.hex_decode after ≡ some (lib.hmac_sha256 secret payload))
        × (lib.from_slice payload ≡ some claims)
        × (now_ms < claims.expires_at)
  unfolding verify
  verify_lem token claims now_ms h =
      let ((before, after), a, h1) = >>=-eq-ok (or_bail (split_once token) _) _ h in
      let (payload, b, h2) = >>=-eq-ok (or_bail (lib.hex_decode before) _) _ h1 in
      let (signature, d, h3) = >>=-eq-ok (or_bail (lib.hex_decode after) _) _ h2 in
      let (_, e, h4) =
        >>=-eq-ok (bail_if (not (bytes_beq (lib.hmac_sha256 secret payload) signature)) _) _ h3 in
      let (found, f, h5) = >>=-eq-ok (or_bail (lib.from_slice payload) _) _ h4 in
      let (_, g, h6) = >>=-eq-ok (bail_if (leb found.expires_at now_ms) _) _ h5 in
      let same : lib.hmac_sha256 secret payload ≡ signature =
        (bytes_beq_iff (lib.hmac_sha256 secret payload) signature).0
          (not-false _ (bail_if-false _ _ e)) in
      let claimed : found ≡ claims = ground arith in
      let later = bail_if-false _ _ g in
      (
        before,
        after,
        payload,
        or_bail-some _ _ a,
        or_bail-some _ _ b,
        rw same (or_bail-some _ _ d),
        rw claimed at (or_bail-some _ _ f),
        not_expired found claims now_ms claimed later,
      )
    where
      not_expired :
          (x y : CommitClaims) (now_ms : ℕ)
          → x ≡ y
          → leb x.expires_at now_ms ≡ false
          → now_ms < y.expires_at
      not_expired x y now_ms e l = let s = ap (λ (c : CommitClaims). c.expires_at) e in ground arith
