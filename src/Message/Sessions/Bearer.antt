-- ===== src/Message/Sessions/Bearer.antt =====
-- The token of a session is the bearer of its principal (crates/message-gateway/src/auth.rs).
use watt_gateway.Prelude.{
  ℕ, ◌<◌, String, ◌≡◌, refl, Bool, true, false, ◌||◌, some, List, [], ◌∷◌, ◌++◌, arith, str_eq,
  str_eq_refl, is_blank, ok,
}
use watt_gateway.Message.Config.{Config}
use watt_gateway.Message.Membership.{principal_is_admitted}
use watt_gateway.Message.Sessions.{
  AuthLibraries, AuthDb, PrincipalClaim, ChallengeRow, SessionRow, SessionPrincipalRow,
  SessionProofRequest, SessionResponse, session_is_taken, live_principal, find_session,
  open_session, prove_session, verify_bearer,
}
use watt_gateway.Message.Sessions.Binding.{prove-IsOpened}

-- No row of `gateway_session_principals` is for the session: its foreign key asks for the session.
unfoldable pub names_session : String → List SessionPrincipalRow → Bool
names_session id [] = false
names_session id (p ∷ ps) = str_eq p.session_id id || names_session id ps

live-append :
    (now : ℕ) (id : String) (ps : List SessionPrincipalRow) (p : SessionPrincipalRow)
    → names_session id ps ≡ false
    → str_eq p.session_id id ≡ true
    → now < p.expires_at
    → live_principal now id (ps ++ p ∷ []) ≡ some p.principal_id
unfolding names_session live_principal
live-append now id [] p h e l = ground arith
live-append now id (q ∷ ps) p h e l = ground (arith, live-append now id ps p)

find-append :
    (now : ℕ) (hash : String) (ps : List SessionPrincipalRow) (ss : List SessionRow)
    (s : SessionRow) (p : String)
    → session_is_taken s.session_id hash ss ≡ false
    → str_eq s.token_hash hash ≡ true
    → now < s.expires_at
    → live_principal now s.session_id ps ≡ some p
    → find_session now hash ps (ss ++ s ∷ [])
      ≡ some (record { session_id = s.session_id; network_id = s.network_id; principal_id = p })
unfolding session_is_taken find_session
find-append now hash ps [] s p h e l f = ground arith
find-append now hash ps (q ∷ ss) s p h e l f = ground (arith, find-append now hash ps ss s p)

module _ {Json Message : Type 0} (lib : AuthLibraries Json Message) where
  abbrev session_row : String → SessionResponse → SessionRow
  session_row session_id r = record {
    session_id = session_id;
    token_hash = lib.hash_token r.session_token;
    network_id = r.network_id;
    expires_at = r.expires_at;
  }

  abbrev principal_row : String → SessionResponse → SessionPrincipalRow
  principal_row session_id r = record {
    session_id = session_id;
    principal_id = r.principal_id;
    expires_at = r.expires_at;
  }

  opened_rows :
      (now : ℕ) (c : Config) (session_id suffix : String) (request : SessionProofRequest)
      (id : String) (row : ChallengeRow Json) (claim : PrincipalClaim) (db db' : AuthDb Json)
      (r : SessionResponse)
      → open_session lib now c session_id suffix request id row claim db ≡ ok (db', r)
      → (session_is_taken session_id (lib.hash_token r.session_token) db.sessions ≡ false)
        × (db'.sessions ≡ db.sessions ++ session_row session_id r ∷ [])
        × (db'.session_principals ≡ db.session_principals ++ principal_row session_id r ∷ [])
        × (db'.membership ≡ db.membership)
  unfolding open_session
  opened_rows now c session_id suffix request id row claim db db' r h =
      (ground arith, ground arith, ground arith, ground arith)

  -- The token of a new session verifies until it expires, to the network and the principal of the
  -- proof, as long as that principal is admitted there; the session's name is new to the table of
  -- session principals.
  pub bearer_verifies :
      (now later : ℕ) (c : Config) (session_id suffix : String) (request : SessionProofRequest)
      (db db' : AuthDb Json) (r : SessionResponse)
      → names_session session_id db.session_principals ≡ false
      → prove_session lib now c session_id suffix request db ≡ ok (db', r)
      → is_blank r.session_token ≡ false
      → later < r.expires_at
      → principal_is_admitted db.membership later r.network_id r.principal_id ≡ true
      → verify_bearer lib later r.session_token db'
        ≡ ok (record {
          session_id = session_id;
          network_id = r.network_id;
          principal_id = r.principal_id;
        })
  unfolding verify_bearer
  bearer_verifies now later c session_id suffix request db db' r new h b l a =
      let o = prove-IsOpened lib now c session_id suffix request db db' r h in
      let (fresh, sessions, principals, membership) =
        opened_rows now c session_id suffix request o.challenge_id o.row o.claim db db' r
          o.opened in
      let live =
        live-append later session_id db.session_principals (principal_row session_id r) new
          (str_eq_refl session_id) l in
      let found =
        find-append later (lib.hash_token r.session_token) _ db.sessions (session_row session_id r)
          r.principal_id fresh (str_eq_refl (lib.hash_token r.session_token)) l live in
      rw (b, sessions, principals, membership, found, a) refl
