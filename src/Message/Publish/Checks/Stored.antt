-- ===== src/Message/Publish/Checks/Stored.antt =====
-- The receipt of a record, read back (crates/message-gateway/src/service.rs).
use Prim.Native.String.{◌++◌ as join}
use watt_gateway.Prelude.{
  ℕ, ◌≡◌, ◌⊎◌, inl, inr, if◌then◌else◌, ◌<◌, refl, Bool, true, false, Option, none, some, arith,
  Result, ok, err, String, ltb, str_eq_refl, str_eq, not, ◌||◌, Bool-cases, eq_iff, bail_if,
  bail_if-false, >>=-eq-ok,
}
use watt_gateway.Message.Bucket.{DeliveryClass, interactive, bulk}
use watt_gateway.Message.Control.{ReceiptRow}
use watt_gateway.Message.Publish.{PublishAcceptance, PublishError, receipt_mismatch}
use watt_gateway.Message.Publish.Checks.{
  class_of, class_text, accept_row, load_confirmed_receipt, some_ok,
}

-- The text of a class is read back.
pub class_of-class_text : (class : DeliveryClass) → class_of (class_text class) ≡ some class
class_of-class_text interactive = refl
class_of-class_text bulk = refl

pub load_live :
    (now : ℕ) (record_id : String) (class : DeliveryClass) (row : ReceiptRow)
    → now < row.expires_at
    → row.delivery_class ≡ class_text class
    → load_confirmed_receipt now record_id row.record_hash row.authorized_route_hash (some row)
      ≡ ok (
          some (record {
            publish_receipt = join "existing:" record_id;
            record_id = record_id;
            delivery_class = class;
            delivery_policy_version = row.delivery_policy_version;
            membership_version = row.membership_version;
          }))
unfolding load_confirmed_receipt accept_row
load_live now record_id class row live stored =
    let ahead : ltb now row.expires_at ≡ true = ground (arith, live) in
    rw
      (
        ahead,
        str_eq_refl row.authorized_route_hash,
        str_eq_refl row.record_hash,
        stored,
        class_of-class_text class,
      )
      refl

-- A receipt that does not answer is missing or has expired.
pub load-none :
    (now : ℕ) (record_id record_hash route_hash : String) (found : Option ReceiptRow)
    → load_confirmed_receipt now record_id record_hash route_hash found ≡ ok none
    → (found ≡ none) ⊎ ((old : ReceiptRow) × (found ≡ some old) × (ltb now old.expires_at ≡ false))
unfolding load_confirmed_receipt
load-none now record_id record_hash route_hash none h = inl refl
load-none now record_id record_hash route_hash (some old) h = inr (old, refl, expired _ _ h)
  where
    expired :
        (live : Bool) (r : Result PublishError PublishAcceptance)
        → Path
            (Result PublishError (Option PublishAcceptance))
            (if live then some_ok r else ok none)
            (ok none)
        → live ≡ false
    expired true (err e) h = cc
    expired true (ok a) h = absurd (ground (h, arith))
    expired false r h = refl

-- A receipt that answers is live, and of the record and the route.
pub load-some :
    (now : ℕ) (record_id record_hash route_hash : String) (found : Option ReceiptRow)
    (receipt : PublishAcceptance)
    → load_confirmed_receipt now record_id record_hash route_hash found ≡ ok (some receipt)
    → (row : ReceiptRow) × (found ≡ some row)
      × (now < row.expires_at)
      × (row.record_hash ≡ record_hash)
      × (row.authorized_route_hash ≡ route_hash)
unfolding load_confirmed_receipt accept_row
load-some now record_id record_hash route_hash none receipt h = absurd (ground (h, arith))
load-some now record_id record_hash route_hash (some row) receipt h =
    elim (Bool-cases (ltb now row.expires_at)) [
      | inr late ↦ absurd (ground (h, late, arith))
      | inl live ↦
          let (a, accepted, _) = some_ok-ok _ receipt (rw live at h) in
          let (u, same, _) =
            >>=-eq-ok
              (bail_if
                (not (str_eq row.authorized_route_hash route_hash)
                  || not (str_eq row.record_hash record_hash))
                receipt_mismatch)
              _ accepted in
          let test = bail_if-false _ _ same in
          (
            row,
            refl,
            ground (arith, live),
            (eq_iff row.record_hash record_hash).0 (ground (arith, test)),
            (eq_iff row.authorized_route_hash route_hash).0 (ground (arith, test)),
          )
    ]
  where
    some_ok-ok :
        (r : Result PublishError PublishAcceptance) (a : PublishAcceptance)
        → some_ok r ≡ ok (some a)
        → (b : PublishAcceptance) × (r ≡ ok b) × (b ≡ a)
    some_ok-ok (err e) a h = absurd (ground (h, arith))
    some_ok-ok (ok b) a h = (b, refl, ground (h, arith))
