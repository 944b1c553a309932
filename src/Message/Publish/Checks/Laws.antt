-- ===== src/Message/Publish/Checks/Laws.antt =====
-- What a prepared frame has passed, and the bounds of a fanout
-- (crates/message-gateway/src/service.rs).
use mathlib.Core.Bool.{true≢false}
use watt_gateway.Prelude.{
  ℕ, ◌≡◌, ◌≢◌, ◌⊎◌, inl, inr, none, lookup, Bool-cases, string_eq, ◌≤◌, ◌*◌, ◌+◌, sym, ◌∙◌, Bool,
  true, false, not, ◌||◌, ◌&&◌, List, Option, some, Eq, arith, Result, ok, String, bail_if, or_bail,
  map_err-ok, >>=-eq-ok, or_bail-some, bail_if-false, ltb, ◌==◌, str_eq, eq_iff, length, u64_max,
}
use watt_gateway.Message.Config.{Config, is_some}
use watt_gateway.Message.Bucket.{class_beq, class_beq_iff}
use watt_gateway.Message.Membership.{
  Db, authorized_scope_version_and_count, principal_is_global_authority, scope_contains_principal,
}
use watt_gateway.Message.Membership.Mutation.{BrokerCall, MembershipMutation, snapshot, principal}
use watt_gateway.Message.Publish.{
  PublishFrame, ValidatedFrame, PublishAcceptance, PublishError, PublishLibraries,
  classification_mismatch, fanout_out_of_bounds, byte_budget_overflow, byte_budget_exceeded,
  framing_mismatch, not_genesis_authority, serialize_failed,
}
use watt_gateway.Message.Publish.Frame.{validate_record_frame}
use watt_gateway.Message.Publish.Checks.{
  Prepared, allows_member_author, Fanout, check_snapshot, needs_genesis, prepare,
  same_classification, apply_mutation, author_is_recipient, projected, subtract_author,
  bound_fanout, fanout_of, authorized, plan_fanout,
}

module _ {Route : Type 0} ⦃route : Eq Route⦄ (lib : PublishLibraries Route)
    (network_id author : String) (frame : PublishFrame Route) where
  pub same_classification-ok :
      (p : Prepared Route) (receipt accepted : PublishAcceptance)
      → same_classification lib network_id author frame p receipt ≡ ok accepted
      → (accepted ≡ receipt)
        × (receipt.delivery_class ≡ p.delivery_class)
        × (receipt.delivery_policy_version ≡ frame.delivery_policy_version)
  unfolding same_classification
  same_classification-ok p receipt accepted h =
      let (u, same, h1) =
        >>=-eq-ok
          (bail_if
            (not (class_beq receipt.delivery_class p.delivery_class)
              || not (receipt.delivery_policy_version == frame.delivery_policy_version))
            classification_mismatch)
          (λ _. ok receipt) h in
      let test = bail_if-false _ _ same in
      (ground (h1, arith), (class_beq_iff _ _).0 (ground (test, arith)), ground (test, arith))

  -- A receipt of the frame's class and policy answers it.
  pub same_classification_accepts :
      (p : Prepared Route) (receipt : PublishAcceptance)
      → receipt.delivery_class ≡ p.delivery_class
      → receipt.delivery_policy_version ≡ frame.delivery_policy_version
      → same_classification lib network_id author frame p receipt ≡ ok receipt
  unfolding same_classification
  same_classification_accepts p receipt class policy =
      ground (arith, (class_beq_iff receipt.delivery_class p.delivery_class).1 class, policy)

  -- What a prepared frame has passed.
  abbrev pub IsChecked : Db → Prepared Route → Type 0
  IsChecked db p =
      (frame.network_id ≡ network_id)
      × (validate_record_frame lib author frame ≡ ok p.validated)
      × (check_snapshot lib network_id author db p.validated.membership_mutation ≡ ok tt)
      × ((needs_genesis lib network_id author p.validated.route
            && not (principal_is_global_authority db network_id author))
          ≡ false)

  -- What a prepared frame holds, which does not depend on the database.
  abbrev pub HasHashes : Prepared Route → Type 0
  HasHashes p =
      (lib.hash_route p.validated.route ≡ some p.route_hash)
      × (p.record_hash ≡ lib.hash_bytes frame.payload)
      × (p.delivery_class
          ≡ lib.delivery_class_for_record (lib.lane_of_route p.validated.route) p.validated.urgency)

  pub prepare-ok :
      (db : Db) (p : Prepared Route)
      → prepare lib network_id author frame db ≡ ok p
      → IsChecked db p × HasHashes p
  unfolding prepare
  prepare-ok db p h =
      let (u, framed, h1) =
        >>=-eq-ok
          (bail_if
            (not (str_eq frame.framing_version "1")
              || not (frame.delivery_policy_version == lib.delivery_policy_version)
              || not (str_eq frame.network_id network_id))
            framing_mismatch)
          _ h in
      let (v, valid, h2) = >>=-eq-ok (validate_record_frame lib author frame) _ h1 in
      let (w, authority, h3) =
        >>=-eq-ok (check_snapshot lib network_id author db v.membership_mutation) _ h2 in
      let (x, genesis, h4) =
        >>=-eq-ok
          (bail_if
            (needs_genesis lib network_id author v.route
              && not (principal_is_global_authority db network_id author))
            not_genesis_authority)
          _ h3 in
      let (hash, hashed, h5) = >>=-eq-ok (or_bail (lib.hash_route v.route) serialize_failed) _ h4 in
      let same : v ≡ p.validated = ground (h5, arith) in
      let hash_is : hash ≡ p.route_hash = ground (h5, arith) in
      (
        (
          (eq_iff frame.network_id network_id).0 (ground (arith, bail_if-false _ _ framed)),
          rw (sym same) valid,
          rw (sym same) authority,
          rw (sym same) (bail_if-false _ _ genesis),
        ),
        (
          rw (sym same, sym hash_is) (or_bail-some _ _ hashed),
          ground (h5, arith),
          rw (sym same) (ground (h5, arith)),
        ),
      )

  pub prepare_same :
      (db db' : Db) (p p' : Prepared Route)
      → prepare lib network_id author frame db ≡ ok p
      → prepare lib network_id author frame db' ≡ ok p'
      → (p'.record_hash ≡ p.record_hash)
        × (p'.route_hash ≡ p.route_hash)
        × (p'.delivery_class ≡ p.delivery_class)
  prepare_same db db' p p' h h' =
      let ((_, valid, _, _), (route_is, record_is, class_is)) = prepare-ok db p h in
      let ((_, valid', _, _), (route_is', record_is', class_is')) = prepare-ok db' p' h' in
      let same : p'.validated ≡ p.validated = cc in
      (record_is' ∙ sym record_is, cc, class_is' ∙ rw same (sym class_is))

  abbrev pub one_if : Bool → ℕ
  one_if true = 1
  one_if false = 0

  module _ (broker : List BrokerCall → Bool) (c : Config) (now elapsed : ℕ)
      (v : ValidatedFrame Route) (db : Db) where
    -- The receipt expects the recipients but the author, where the scope has it at the record's
    -- version.
    abbrev pub IsOfScope : Fanout → Type 0
    IsOfScope f =
        (there : Bool) × (scope_contains_principal lib.label db now network_id
            (lib.scope_of_route v.route) author f.membership_version
          ≡ ok there)
        × (f.expected_recipients + one_if there ≡ f.physical_recipients)

    -- The receipt expects the recipients but the author: with a snapshot it is one where the
    -- membership names it, with a change of its own membership where that makes it active, and else
    -- where the scope has it.
    abbrev pub IsCounted : Option MembershipMutation → Fanout → Type 0
    IsCounted (some (snapshot _ membership _ _ _)) f =
        f.expected_recipients + one_if (is_some (lookup author membership)) ≡ f.physical_recipients
    IsCounted (some (principal _ p active _)) f =
        ((p ≡ author) × (f.expected_recipients + one_if active ≡ f.physical_recipients))
        ⊎ ((p ≢ author) × IsOfScope f)
    IsCounted none f = IsOfScope f

    -- What a plan has checked.
    abbrev pub IsBounded : Fanout → Type 0
    IsBounded f =
        (1 ≤ f.physical_recipients)
        × (f.physical_recipients ≤ c.max_fanout_recipients)
        × (length frame.payload * f.physical_recipients ≤ c.max_fanout_bytes_per_publish)
        × IsCounted v.membership_mutation f

    abbrev pub IsAuthorized : Type 0
    IsAuthorized =
        (found : Option String × ℕ) × (authorized_scope_version_and_count lib.label db now
            network_id (lib.scope_of_route v.route) author
            (allows_member_author author v.membership_mutation)
          ≡ ok found)

    abbrev fanout : Db → Option String → ℕ → Bool → Fanout
    fanout after version n b =
        fanout_of lib network_id author broker c now elapsed v after version n b

    plan_is :
        (after : Db) (version : Option String) (n : ℕ) (b : Bool) (f : Fanout)
        → Path (Result PublishError Fanout) (ok (fanout after version n b)) (ok f)
        → f ≡ fanout after version n b
    plan_is after version n b f h = ground (h, arith)

    counted :
        (mutation : Option MembershipMutation) (f : Fanout) (b : Bool)
        → author_is_recipient lib network_id author broker c now elapsed db v.route
            f.membership_version mutation
          ≡ ok b
        → f.expected_recipients + one_if b ≡ f.physical_recipients
        → IsCounted mutation f
    unfolding author_is_recipient
    counted (some (snapshot _ membership _ _ _)) f b h e =
        let same : is_some (lookup author membership) ≡ b = ground (h, arith) in rw same e
    counted (some (principal _ p active _)) f b h e = elim (Bool-cases (str_eq p author)) [
      | inl own ↦
          let same : active ≡ b = ground (h, own, arith) in inl ((eq_iff p author).0 own, rw same e)
      | inr other ↦
          let read : projected lib network_id author broker c now elapsed db v.route
                f.membership_version
              ≡ ok b =
            rw other at h in
          inr (
            (λ same. true≢false (sym ((eq_iff p author).1 same) ∙ other)),
            (b, map_err-ok _ _ read, e),
          )
    ]
    counted none f b h e = (b, map_err-ok _ _ h, e)

    share :
        (n : ℕ) (b : Bool)
        → 1 ≤ n
        → subtract_author lib network_id author broker c now elapsed n b + one_if b ≡ n
    share n true h = omega arith
    share n false h = omega arith

    within :
        (after : Db) (version : Option String) (n : ℕ) (b : Bool)
        → (n == 0 || ltb c.max_fanout_recipients n) ≡ false
        → ltb c.max_fanout_bytes_per_publish (length frame.payload * n) ≡ false
        → author_is_recipient lib network_id author broker c now elapsed db v.route version
            v.membership_mutation
          ≡ ok b
        → IsBounded (fanout after version n b)
    within after version n b h k found =
        let some_recipient : 1 ≤ n = ground (arith, h) in
        (
          some_recipient,
          ground (arith, h),
          ground (arith, k),
          counted v.membership_mutation (fanout after version n b) b found
              (share n b some_recipient),
        )

    bounded :
        (after : Db) (version : Option String) (n : ℕ) (f : Fanout)
        → bound_fanout lib network_id author broker c now elapsed frame v db after version n ≡ ok f
        → IsBounded f
    unfolding bound_fanout
    bounded after version n f h =
        let (u, some_recipient, h1) =
          >>=-eq-ok (bail_if (n == 0 || ltb c.max_fanout_recipients n) fanout_out_of_bounds) _ h in
        let (is_recipient, found, h2) =
          >>=-eq-ok
            (author_is_recipient lib network_id author broker c now elapsed db v.route version
              v.membership_mutation)
            _ h1 in
        let (w, no_overflow, h3) =
          >>=-eq-ok (bail_if (ltb u64_max (length frame.payload * n)) byte_budget_overflow) _ h2 in
        let (x, in_budget, h4) =
          >>=-eq-ok
            (bail_if (ltb c.max_fanout_bytes_per_publish (length frame.payload * n))
              byte_budget_exceeded)
            _ h3 in
        let found_fanout = plan_is after version n is_recipient f h4 in
        rw found_fanout (
          within after version n is_recipient (bail_if-false _ _ some_recipient)
            (bail_if-false _ _ in_budget) found)

    pub plan_fanout-ok :
        (f : Fanout)
        → plan_fanout lib network_id author broker c now elapsed frame v db ≡ ok f
        → IsBounded f × IsAuthorized
    unfolding plan_fanout
    plan_fanout-ok f h =
        let (scope_label, labelled, h0) =
          >>=-eq-ok (or_bail (lib.label (lib.scope_of_route v.route)) serialize_failed) _ h in
        let (found, allowed, h1) =
          >>=-eq-ok (authorized lib network_id author broker c now elapsed v db) _ h0 in
        let ((after, (version, n)), applied, h2) =
          >>=-eq-ok
            (apply_mutation lib network_id author broker c now elapsed db v.route
              v.membership_mutation found)
            _ h1 in
        (bounded after version n f h2, (found, map_err-ok _ _ allowed))
