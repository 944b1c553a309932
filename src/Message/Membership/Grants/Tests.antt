-- ===== src/Message/Membership/Grants/Tests.antt =====
-- Grants of the sample network, and what the theorem on them says.
use watt_gateway.Prelude.{
  ◌≡◌, refl, String, Bool, true, false, ◌&&◌, some, [], ◌∷◌, ok, lookup, insert, string_eq, pair_eq,
  str_eq,
}
use watt_gateway.Message.Config.Tests.{sample}
use watt_gateway.Message.Membership.{
  Db, principal_is_admitted, principal_is_global_authority, expiry_is_ahead,
}
use watt_gateway.Message.Membership.Mutation.Tests.{
  network, healthy, joined_with, alice_joins, network-IsKeyed,
}
use watt_gateway.Message.Membership.Grants.{
  Grant, GrantCrypto, admit_grant, upsert_network_membership_grant, active_version, project_grant,
  finish_grant, respond,
}
use watt_gateway.Message.Membership.Grants.Admits.{IsProjected, admit_admits}

second : (a b : Bool) → (a && b) ≡ true → b ≡ true
second true b h = h
second false b h = absurd (cc)

-- The issuer is the Genesis, and the grant has not expired; the id is a constant.
abbrev crypto : GrantCrypto
crypto = record {
  verify_grant = λ g issuer now. str_eq issuer "genesis" && expiry_is_ahead now g.expires_at;
  grant_id = λ g. some "v2";
  verified_is_ahead =
      λ g issuer now h. second (str_eq issuer "genesis") (expiry_is_ahead now g.expires_at) h;
}

abbrev grant_of : String → Grant
grant_of p = record {
  network_id = "network";
  principal_id = p;
  issued_at = 0;
  expires_at = some 1000;
}

abbrev granted : Db
granted = joined_with (
    (("network", "alice"), record { grant_id = "v2"; issued_at_ms = 0; expires_at_ms = some 1000 })
    ∷ [])

alice_is_granted :
    admit_grant crypto healthy sample 1 5 (grant_of "alice") network
    ≡ ok (granted, respond (grant_of "alice") "grant:v2")
unfolding admit_grant upsert_network_membership_grant active_version finish_grant project_grant
    principal_is_global_authority lookup insert
alice_is_granted = rw (alice_joins _) refl

admit_admits_example :
    (principal_is_admitted granted 1 "network" "alice" ≡ true)
    × IsProjected granted (grant_of "alice") (respond (grant_of "alice") "grant:v2")
    × ((genesis : String) × (lookup ⦃e = string_eq⦄ "network" sample.trusted_network_genesis
          ≡ some genesis)
        × (crypto.verify_grant (grant_of "alice") genesis 1 ≡ true)
        × (principal_is_global_authority network "network" genesis ≡ true))
admit_admits_example =
    admit_admits crypto healthy sample 1 5 (grant_of "alice") network granted
      (respond (grant_of "alice") "grant:v2") network-IsKeyed alice_is_granted
