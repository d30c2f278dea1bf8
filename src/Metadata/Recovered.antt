-- ===== src/Metadata/Recovered.antt =====
-- What `RecoverInterruptedOperations` of common/metadata_store.cpp leaves of the operations.
use path_overlay.Base.{
  ◌≡◌, refl, sym, ap, subst, ◌∙◌, inl, inr, Bool, true, false, Bool-cases, some, List, [], ◌∷◌,
  arith,
}
use mathlib.Core.Bool.{false≢true}
use path_overlay.Base.Lists.{select, Member, here, there, All}
use path_overlay.Metadata.Statement.{stored_text}
use path_overlay.Wide.{Text, wide, same_text, same_text_refl}
use path_overlay.Action.{is_success, success, ⊤, ◌>>=◌, ◌>>◌, >>=-success, pure}
use path_overlay.Action.Keeps.{IsPreorder, Keeps, Keeps-on_option, keeps_rules}
use path_overlay.Metadata.Records.{OperationRecord}
use path_overlay.Metadata.Sql.{
  Engine, Sql, update_operations, select_running_operations, Tables, order_by, update_id,
}
use path_overlay.Metadata.Store.{
  run_query, run_query_one, run_statement, before_by, get_rule, set_rule_enabled,
  update_operation_record,
}
use path_overlay.Metadata.Changes.Statements.{run_statement-Outcome}
use path_overlay.Metadata.Sorted.{run_query-success, order_by-Member, select-Member, All-of_Member}
use path_overlay.Metadata.Recovery.{
  is_applying, recovered_status, recovery_error, recovered_record, list_running_operations,
  restore_rule, recover_operation, recover_operations, recover_interrupted_operations,
}

abbrev pub IsRunning : OperationRecord → Type 0
IsRunning o = same_text o.status (wide "running") ≡ true

abbrev HasId : Text → List OperationRecord → Type 0
HasId id records = (r : OperationRecord) × Member r records × (r.id ≡ id)

-- Each running operation of the table has the id of one of the records.
abbrev Pending : List OperationRecord → List OperationRecord → Type 0
Pending records operations = All (λ o. IsRunning o → HasId o.id records) operations

recovered_status-stopped :
    (r : OperationRecord) → same_text (recovered_status r) (wide "running") ≡ false
unfolding recovered_status wide same_text
recovered_status-stopped r = elim (Bool-cases (is_applying r.phase)) [
  | inl applying ↦ rw (recovered_status, applying) refl
  | inr before ↦ rw (recovered_status, before) refl
]

-- An id that is not the first record's is a later one's.
still_waits :
    (o r : OperationRecord) (rest : List OperationRecord)
    → HasId o.id (r ∷ rest)
    → same_text o.id r.id ≡ false
    → HasId o.id rest
still_waits o r rest (q, there m, e) other = (q, m, e)
still_waits o r rest (q, here, e) other =
    absurd (false≢true (sym other ∙ (ap (λ i. same_text i r.id) (sym e) ∙ same_text_refl r.id)))

-- The update of the operations with an id takes that id off the pending records.
update_id-Pending :
    (f : OperationRecord → OperationRecord) (r : OperationRecord)
    (rest operations : List OperationRecord)
    → ((o : OperationRecord) → same_text (f o).status (wide "running") ≡ false)
    → Pending (r ∷ rest) operations
    → Pending rest (update_id (λ o. o.id) r.id f operations)
unfolding update_id
update_id-Pending f r rest [] stopped pending = tt
update_id-Pending f r rest (o ∷ operations) stopped (h, pending) = (
  elim (Bool-cases (same_text o.id r.id)) [
    | inl same ↦ rw (same) (λ running. absurd (false≢true (sym (stopped o) ∙ running)))
    | inr other ↦ rw (other) (λ running. still_waits o r rest (h running) other)
  ],
  update_id-Pending f r rest operations stopped pending,
)

stopped_operations :
    (rows : List OperationRecord) (t u : Tables)
    → some (record t { operations = rows }) ≡ some u
    → rows ≡ u.operations
stopped_operations rows t u e = ground arith

module _ (engine : Engine) where
  SameOperations : Tables → Tables → Type 0
  SameOperations t t' = t'.operations ≡ t.operations

  same_operations : IsPreorder SameOperations
  unfolding SameOperations
  same_operations = record { rel_refl = λ t. refl; rel_trans = λ t u v h k. k ∙ h }

  run_query-SameOperations :
      {A : Type 0} (sql : Sql) (prepare_error step_error : Text) (rows : Tables → A)
      → Keeps SameOperations (run_query engine sql prepare_error step_error rows)
  unfolding SameOperations run_query
  run_query-SameOperations sql prepare_error step_error rows = record { at = λ t. ground arith }

  get_rule-SameOperations : (id : Text) → Keeps SameOperations (get_rule engine id)
  unfolding get_rule run_query_one
  get_rule-SameOperations id =
      search (keeps_rules, Keeps-on_option, same_operations, run_query-SameOperations) depth 12

  set_rule_enabled-SameOperations :
      (id : Text) (enabled : Bool) → Keeps SameOperations (set_rule_enabled engine id enabled)
  unfolding SameOperations set_rule_enabled run_statement
  set_rule_enabled-SameOperations id enabled = record { at = λ t. ground arith }

  restore_rule-SameOperations : (r : OperationRecord) → Keeps SameOperations (restore_rule engine r)
  unfolding restore_rule
  restore_rule-SameOperations r =
      search
        (keeps_rules, same_operations, get_rule-SameOperations, set_rule_enabled-SameOperations)
        depth 12

  -- The first statement of `recover_operation`.
  update_operation_record-Pending :
      (r : OperationRecord) (rest : List OperationRecord) (phase at_ finished backup error : Text)
      (t t' : Tables) (a : ⊤)
      → Pending (r ∷ rest) t.operations
      → update_operation_record engine r.id (recovered_status r) phase at_ finished backup error t
        ≡ (success a, t')
      → Pending rest t'.operations
  unfolding update_operation_record
  update_operation_record-Pending r rest phase at_ finished backup error t t' a pending h =
      let stop = λ (x : OperationRecord). record x {
        status = recovered_status r;
        phase = phase;
        updated_at = at_;
        finished_at = finished;
        backup_root = stored_text engine backup;
        error = stored_text engine error;
      } in
      elim (run_statement-Outcome engine update_operations
        (wide "failed to prepare operation update") (wide "failed to update operation record")
        (λ u. some (record u {
          operations = update_id (λ (x : OperationRecord). x.id) r.id stop u.operations;
        }))
        t (λ u. Pending rest u.operations)
        (λ u e.
          subst (Pending rest) (stopped_operations _ t u e) (
            update_id-Pending stop r rest t.operations (λ o. recovered_status-stopped r)
              pending))) [
                | inl (failed, same) ↦ absurd (false≢true (sym failed ∙ ap (λ x. is_success x.0) h))
                | inr (ok, q) ↦ subst (λ u. Pending rest u.operations) (ap (λ x. x.1) h) q
              ]

  rest_of-SameOperations :
      (r : OperationRecord)
      → Keeps SameOperations (restore_rule engine r >> pure (recovered_record r))
  rest_of-SameOperations r =
      search (keeps_rules, same_operations, restore_rule-SameOperations) depth 12

  pure-same : {A : Type 0} (a b : A) (v t' : Tables) → pure a v ≡ (success b, t') → v ≡ t'
  unfolding pure
  pure-same a b v t' k = ap (λ x. x.1) k

  recover_operation-Pending :
      (r : OperationRecord) (rest : List OperationRecord) (t t' : Tables) (b : OperationRecord)
      → Pending (r ∷ rest) t.operations
      → recover_operation engine r t ≡ (success b, t')
      → Pending rest t'.operations
  unfolding recover_operation SameOperations ◌>>◌
  recover_operation-Pending r rest t t' b pending h =
      let update =
        update_operation_record engine r.id (recovered_status r) r.phase (wide "startup-recovery")
          (wide "startup-recovery") r.backup_root (recovery_error r) in
      let rest_of = restore_rule engine r >> pure (recovered_record r) in
      let (a, u, e, g) = >>=-success update (λ _. rest_of) t h in
      let kept = (rest_of-SameOperations r).at u in
      let same : t'.operations ≡ u.operations = sym (ap (λ x. x.1.operations) g) ∙ kept in
      rw (same) (update_operation_record-Pending r rest _ _ _ _ _ t u a pending e)

  recover_operations-Pending :
      (records : List OperationRecord) (t t' : Tables) (found : List OperationRecord)
      → Pending records t.operations
      → recover_operations engine records t ≡ (success found, t')
      → Pending [] t'.operations
  unfolding recover_operations ◌>>=◌
  recover_operations-Pending [] t t' found pending h =
      subst (Pending []) (ap (λ x. x.1.operations) h) pending
  recover_operations-Pending (r ∷ rest) t t' found pending h =
      let (first, u, e, g) =
        >>=-success (recover_operation engine r)
          (λ first. recover_operations engine rest >>= λ others. pure (first ∷ others)) t h in
      let (others, v, f, k) =
        >>=-success (recover_operations engine rest) (λ others. pure (first ∷ others)) u g in
      let done =
        recover_operations-Pending rest u v others
          (recover_operation-Pending r rest t u first pending e) f in
      subst (λ x. Pending [] x.operations) (pure-same _ _ v t' k) done

  -- The records that the query finds are those of the running operations.
  list_running_operations-Pending :
      (t t' : Tables) (records : List OperationRecord)
      → list_running_operations engine t ≡ (success records, t')
      → Pending records t'.operations
  unfolding list_running_operations
  list_running_operations-Pending t t' records h =
      let order = before_by engine.collate (λ (x : OperationRecord). x.started_at) (λ x. x.id) in
      let running = λ (x : OperationRecord). same_text x.status (wide "running") in
      let (found, same) =
        run_query-success engine select_running_operations
          (wide "failed to prepare interrupted operation query")
          (wide "failed to query interrupted operations")
          (λ u. order_by order (select running u.operations)) t t' records h in
      subst (λ u. Pending records u.operations) same
        (subst (λ rs. Pending rs t.operations) found
          (All-of_Member t.operations λ o m is_running.
            (o, order_by-Member order _ (select-Member running t.operations o is_running m), refl)))

Stopped : List OperationRecord → Type 0
Stopped operations = All (λ o. same_text o.status (wide "running") ≡ false) operations

Pending-Stopped : (operations : List OperationRecord) → Pending [] operations → Stopped operations
unfolding Stopped
Pending-Stopped [] pending = tt
Pending-Stopped (o ∷ operations) (h, pending) = (
  elim (Bool-cases (same_text o.status (wide "running"))) [
    | inl running ↦ nobody (h running)
    | inr stopped ↦ stopped
  ],
  Pending-Stopped operations pending,
)
  where
    nobody : HasId o.id [] → same_text o.status (wide "running") ≡ false
    nobody (r, m, e) = elim m [ ]

-- When the recovery succeeds, no operation of the table has the status `running`.
pub recover_interrupted_operations_stops :
    (engine : Engine) (t t' : Tables) (records : List OperationRecord)
    → recover_interrupted_operations engine t ≡ (success records, t')
    → All (λ o. same_text o.status (wide "running") ≡ false) t'.operations
unfolding recover_interrupted_operations Stopped
recover_interrupted_operations_stops engine t t' records h =
    let (running, u, e, g) =
      >>=-success (list_running_operations engine) (recover_operations engine) t h in
    Pending-Stopped t'.operations (
      recover_operations-Pending engine running u t' records
        (list_running_operations-Pending engine t u running e) g)
