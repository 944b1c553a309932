-- ===== src/Message/Owner/Keys.antt =====
-- The keys of mailboxes and of scope fences of crates/message-gateway/src/db.rs tell their parts
-- apart.
use watt_gateway.Prelude.{◌≡◌, ◌++◌, length, Bytes, decimal-injective, append-injective}
use watt_gateway.Message.Owner.{mailbox_binding_key}

-- Mailboxes of different networks or principals have different binding keys, though the two names
-- are joined with nothing between them.
pub mailbox_binding_key-injective :
    (network_id principal_id network_id' principal_id' : Bytes)
    → mailbox_binding_key network_id principal_id ≡ mailbox_binding_key network_id' principal_id'
    → (network_id ≡ network_id') × (principal_id ≡ principal_id')
unfolding mailbox_binding_key
mailbox_binding_key-injective n p n' p' h =
    let (l, e) = decimal-injective (length n) (length n') (n ++ p) (n' ++ p') h in
    append-injective n p n' p' l e
