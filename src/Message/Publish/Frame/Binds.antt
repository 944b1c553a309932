-- ===== src/Message/Publish/Frame/Binds.antt =====
-- A frame that is accepted is bound to its session and its route
-- (crates/message-gateway/src/service.rs).
use watt_gateway.Prelude.{
  ◌≡◌, sym, ap, ◌∙◌, ◌⊎◌, inl, inr, String, Bool, true, false, not, ◌&&◌, ◌||◌, none, some, arith,
  ltb, str_eq, eq_iff, length, Eq, Result, ok, bail_if, or_bail, >>=-eq-ok, or_bail-some,
  bail_if-false, not-false,
}
use watt_gateway.Message.Membership.{SwarmScope}
use watt_gateway.Message.Membership.Mutation.{principal}
use watt_gateway.Message.Publish.{
  rules, checkpoints, summaries, is_messages, scope_beq, is_global, scope_from_hint,
  is_public_global_control, Event, PublishPayloadType, event_type, message_type, rule_type,
  checkpoint_type, summary_type, is_message_type, PublishFrame, ValidatedFrame, PublishError,
  EventDeliveryUrgency, time_sensitive_control, background, parse_failed, signature_invalid,
  identity_mismatch, scope_invalid, route_failed, route_mismatch, message_needs_message_lane,
  global_needs_control, mutation_scope_mismatch, frame_too_large, PublishLibraries,
}
use watt_gateway.Message.Publish.Frame.{
  lane_of_kind, event_mutation, mutation_differs, binds_route, announcement_route, check_authority,
  finish_event, validate_event_frame, announced, validate_rule_frame, validate_checkpoint_frame,
  validate_summary_frame, validate_by_type, validate_record_frame,
}
use watt_gateway.Message.Publish.Frame.Own.{scope_eq, IsOwn, mutation-IsOwn}

module _ {Route : Type 0} ⦃route : Eq Route⦄ (lib : PublishLibraries Route) (author : String)
    (frame : PublishFrame Route) (v : ValidatedFrame Route) where
  bound_route :
      (expected : Route) (u : Unit {0})
      → binds_route lib author expected frame ≡ ok u
      → expected ≡ frame.transport
  bound_route expected u h = (route.beq_iff _ _).0 (not-false _ (bail_if-false _ route_mismatch h))

  -- What an accepted event is.
  abbrev pub IsSigned : Event → Type 0
  IsSigned event =
      (lib.parse_event frame.payload ≡ some event)
      × (lib.event_signature_holds event ≡ true)
      × (event.event_id ≡ frame.record_id)
      × (event.author_node_id ≡ author)
      × ((is_global (lib.scope_of_route v.route) && not (is_public_global_control event.payload))
          ≡ false)
      × (event_mutation event event.payload ≡ ok v.membership_mutation)
      × (mutation_differs v.membership_mutation (lib.scope_of_route v.route) ≡ false)

  finished :
      (event : Event) (control : Bool) (expected : Route)
      → finish_event lib author frame event control expected ≡ ok v
      → (v.route ≡ frame.transport)
        × (v.route ≡ expected)
        × ((is_global (lib.scope_of_route v.route) && not control) ≡ false)
        × (event_mutation event event.payload ≡ ok v.membership_mutation)
        × (mutation_differs v.membership_mutation (lib.scope_of_route v.route) ≡ false)
  unfolding finish_event
  finished event control expected h =
      let (u, bound, h1) = >>=-eq-ok (binds_route lib author expected frame) _ h in
      let (w, lane, h2) =
        >>=-eq-ok
          (bail_if
            (is_message_type frame.payload_type && not (is_messages (lib.lane_of_route expected)))
            message_needs_message_lane)
          _ h1 in
      let (x, controlled, h3) =
        >>=-eq-ok
          (bail_if (is_global (lib.scope_of_route expected) && not control) global_needs_control) _
          h2 in
      let (mutation, mutated, h4) = >>=-eq-ok (event_mutation event event.payload) _ h3 in
      let (y, agrees, h5) =
        >>=-eq-ok
          (bail_if (mutation_differs mutation (lib.scope_of_route expected))
            mutation_scope_mismatch)
          _ h4 in
      let route_is : expected ≡ v.route = ground (h5, arith) in
      let mutation_is : mutation ≡ v.membership_mutation = ground (h5, arith) in
      (
        sym route_is ∙ bound_route expected u bound,
        sym route_is,
        rw (sym route_is) (bail_if-false _ _ controlled),
        rw (sym mutation_is) mutated,
        rw (sym route_is, sym mutation_is) (bail_if-false _ _ agrees),
      )

  pub IsSigned-event :
      validate_event_frame lib author frame ≡ ok v
      → (v.route ≡ frame.transport) × (event : Event) × IsSigned event
  unfolding validate_event_frame
  IsSigned-event h =
      let (event, parsed, h1) =
        >>=-eq-ok (or_bail (lib.parse_event frame.payload) parse_failed) _ h in
      let (u, signed, h2) =
        >>=-eq-ok (bail_if (not (lib.event_signature_holds event)) signature_invalid) _ h1 in
      let (w, same, h3) =
        >>=-eq-ok
          (bail_if
            (not (str_eq event.event_id frame.record_id)
              || not (str_eq event.author_node_id author))
            identity_mismatch)
          _ h2 in
      let (hint, hinted, h4) =
        >>=-eq-ok (or_bail (lib.parse_scope event.swarm_scope) scope_invalid) _ h3 in
      let (expected, routed, h5) =
        >>=-eq-ok
          (or_bail
            (lib.from_kind_label (scope_from_hint hint) (lane_of_kind event.event_kind)
              event.event_kind (is_public_global_control event.payload))
            route_failed)
          _ h4 in
      let (bound, route_is, controlled, mutated, agrees) =
        finished event (is_public_global_control event.payload) expected h5 in
      (
        bound,
        event,
        (
          or_bail-some _ _ parsed,
          not-false _ (bail_if-false _ _ signed),
          (eq_iff _ _).0 (ground (arith, bail_if-false _ _ same)),
          (eq_iff _ _).0 (ground (arith, bail_if-false _ _ same)),
          controlled,
          mutated,
          agrees,
        ),
      )

  announced_bound :
      (expected : Route) (u : Unit {0}) (urgency : EventDeliveryUrgency)
      → binds_route lib author expected frame ≡ ok u
      → Path
          (Result PublishError (ValidatedFrame Route))
          (ok (announced lib author expected urgency))
          (ok v)
      → (v.route ≡ frame.transport) × (v.membership_mutation ≡ none)
  announced_bound expected u urgency bound h =
      let route_is : expected ≡ v.route = ground (h, arith) in
      (sym route_is ∙ bound_route expected u bound, ground (h, arith))

  bound_rule :
      validate_rule_frame lib author frame ≡ ok v
      → (v.route ≡ frame.transport) × (v.membership_mutation ≡ none)
  unfolding validate_rule_frame
  bound_rule h =
      let (rule, _, h1) = >>=-eq-ok (or_bail (lib.parse_rule frame.payload) parse_failed) _ h in
      let (_, _, h2) =
        >>=-eq-ok
          (bail_if (not (str_eq frame.record_id (lib.hash_bytes frame.payload))) identity_mismatch)
          _ h1 in
      let (_, _, h3) =
        >>=-eq-ok
          (check_authority lib author rule.scope rule.authority_signer_node_id
            rule.authority_signature_hex (lib.rule_message rule))
          _ h2 in
      let (expected, _, h4) =
        >>=-eq-ok
          (or_bail (announcement_route lib author rule.scope rules (is_global rule.scope))
            route_failed)
          _ h3 in
      let (u, bound, h5) = >>=-eq-ok (binds_route lib author expected frame) _ h4 in
      announced_bound expected u time_sensitive_control bound h5

  bound_checkpoint :
      validate_checkpoint_frame lib author frame ≡ ok v
      → (v.route ≡ frame.transport) × (v.membership_mutation ≡ none)
  unfolding validate_checkpoint_frame
  bound_checkpoint h =
      let (k, _, h1) = >>=-eq-ok (or_bail (lib.parse_checkpoint frame.payload) parse_failed) _ h in
      let (_, _, h2) =
        >>=-eq-ok (bail_if (not (str_eq k.checkpoint_id frame.record_id)) identity_mismatch) _ h1 in
      let (_, _, h3) =
        >>=-eq-ok
          (check_authority lib author k.scope k.authority_signer_node_id k.authority_signature_hex
            (lib.checkpoint_message k))
          _ h2 in
      let (expected, _, h4) =
        >>=-eq-ok
          (or_bail (announcement_route lib author k.scope checkpoints (is_global k.scope))
            route_failed)
          _ h3 in
      let (u, bound, h5) = >>=-eq-ok (binds_route lib author expected frame) _ h4 in
      announced_bound expected u background bound h5

  bound_summary :
      validate_summary_frame lib author frame ≡ ok v
      → (v.route ≡ frame.transport) × (v.membership_mutation ≡ none)
  unfolding validate_summary_frame
  bound_summary h =
      let (s, _, h1) = >>=-eq-ok (or_bail (lib.parse_summary frame.payload) parse_failed) _ h in
      let (_, _, h2) =
        >>=-eq-ok
          (bail_if
            (not (str_eq s.summary_id frame.record_id) || not (str_eq s.source_node_id author))
            identity_mismatch)
          _ h1 in
      let (expected, _, h3) =
        >>=-eq-ok (or_bail (announcement_route lib author s.scope summaries false) route_failed) _
          h2 in
      let (u, bound, h4) = >>=-eq-ok (binds_route lib author expected frame) _ h3 in
      announced_bound expected u background bound h4

  bound_by_type :
      (payload_type : PublishPayloadType)
      → validate_by_type lib author payload_type frame ≡ ok v
      → (v.route ≡ frame.transport)
        × ((v.membership_mutation ≡ none) ⊎ ((event : Event) × IsSigned event))
  unfolding validate_by_type
  bound_by_type event_type h =
      let (bound, event, signed) = IsSigned-event h in (bound, inr (event, signed))
  bound_by_type message_type h =
      let (bound, event, signed) = IsSigned-event h in (bound, inr (event, signed))
  bound_by_type rule_type h = let (bound, plain) = bound_rule h in (bound, inl plain)
  bound_by_type checkpoint_type h = let (bound, plain) = bound_checkpoint h in (bound, inl plain)
  bound_by_type summary_type h = let (bound, plain) = bound_summary h in (bound, inl plain)

  pub frame_bound :
      validate_record_frame lib author frame ≡ ok v
      → (v.route ≡ frame.transport)
        × ((v.membership_mutation ≡ none) ⊎ ((event : Event) × IsSigned event))
  unfolding validate_record_frame
  frame_bound h =
      let (_, _, h1) =
        >>=-eq-ok (bail_if (ltb 1048576 (length frame.payload)) frame_too_large) _ h in
      bound_by_type frame.payload_type h1

  own_mutation :
      (event : Event) (scope : SwarmScope) (p version : String) (active : Bool)
      → IsSigned event
      → v.membership_mutation ≡ some (principal scope p active version)
      → (p ≡ author) × (version ≡ frame.record_id) × (scope ≡ lib.scope_of_route v.route)
  unfolding mutation_differs IsOwn
  own_mutation event scope p version active
        (parsed, signed, id_is, author_is, controlled, mutated, agrees) named =
      let (p_is, version_is) =
        mutation-IsOwn event event.payload (principal scope p active version)
          (mutated ∙ ap ok named) in
      let same : not (scope_beq scope (lib.scope_of_route v.route)) ≡ false =
        ap (λ m. mutation_differs m (lib.scope_of_route v.route)) (sym named) ∙ agrees in
      (p_is ∙ author_is, version_is ∙ id_is, scope_eq _ _ (not-false _ same))

  -- Where an accepted frame changes the membership of one principal, the principal is the
  -- session's own, the version is the record's id, and the scope is that of the frame's route. A
  -- snapshot, which names a whole membership, is no such change.
  pub changes_only_itself :
      (scope : SwarmScope) (p version : String) (active : Bool)
      → validate_record_frame lib author frame ≡ ok v
      → v.membership_mutation ≡ some (principal scope p active version)
      → (p ≡ author) × (version ≡ frame.record_id) × (scope ≡ lib.scope_of_route frame.transport)
  changes_only_itself scope p version active h named =
      let (bound, who) = frame_bound h in
      elim who [
        | inl plain ↦ cc
        | inr (event, signed) ↦
            rw (sym bound) (own_mutation event scope p version active signed named)
      ]
