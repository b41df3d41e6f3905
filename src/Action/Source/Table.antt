-- ===== src/Action/Source/Table.antt =====
-- The mapping of source statuses to receipt statuses, as a table.
use alice_brain_hermes.Prelude.{
  String, ◌≡◌, ◌≢◌, ◌↔◌, ◌⊎◌, refl, Bool, true, false, not, ◌&&◌, str_eq, eq_iff, inl, inr, ap,
  str_mem, guard-eq-ok, value_error, arith, ok,
}
use alice_brain_hermes.Text.{is_blank, has_length}
use alice_brain_hermes.Json.{Json, is_str, null, str}
use alice_brain_hermes.Action.{ActionReceiptStatus, max_action_source_error_type_length}
use alice_brain_hermes.Action.Source.{
  validate_receipt_source_semantics, validate_source_error_type, expected_status, attributed,
  consistent, hermes_source_statuses, thread_missing_result,
}

-- No error type, or a bounded one that is not the reserved text.
abbrev pub is_plain_error : Json → Bool
is_plain_error null = true
is_plain_error (str s) =
    not (is_blank s)
    && has_length 0 max_action_source_error_type_length s
    && not (str_eq s thread_missing_result)
is_plain_error _ = false

-- The rows of the table.
abbrev pub Means : ActionReceiptStatus → Json → Json → Type 0
Means status source error =
    (source ≡ null) × (error ≡ null)
    ⊎ (source ≡ str "ok") × (error ≡ null) × (status ≡ ActionReceiptStatus.success)
    ⊎ (source ≡ str "error")
      × (error ≡ str thread_missing_result)
      × (status ≡ ActionReceiptStatus.unknown)
    ⊎ (source ≡ str "error")
      × (is_plain_error error ≡ true)
      × (status ≡ ActionReceiptStatus.failure)
    ⊎ (source ≡ str "timeout")
      × (is_plain_error error ≡ true)
      × (status ≡ ActionReceiptStatus.unknown)
    ⊎ (source ≡ str "cancelled")
      × (is_plain_error error ≡ true)
      × (status ≡ ActionReceiptStatus.unknown)

module _ (status : ActionReceiptStatus) where
  ok_row :
      (error : Json)
      → consistent status "ok" error ≡ ok tt
      → (error ≡ null) × (status ≡ ActionReceiptStatus.success)
  unfolding consistent
  ok_row null h = ground arith
  ok_row (str t) h = ground arith
  ok_row _ h = ground arith

  error_row :
      (error : Json)
      → consistent status "error" error ≡ ok tt
      → (error ≡ str thread_missing_result) × (status ≡ ActionReceiptStatus.unknown)
        ⊎ (is_plain_error error ≡ true) × (status ≡ ActionReceiptStatus.failure)
  unfolding consistent
  error_row null h = ground arith
  error_row (str t) h = ground (arith, eq_iff t thread_missing_result)
  error_row _ h = ground arith

  timeout_row :
      (error : Json)
      → consistent status "timeout" error ≡ ok tt
      → (is_plain_error error ≡ true) × (status ≡ ActionReceiptStatus.unknown)
  unfolding consistent
  timeout_row null h = ground arith
  timeout_row (str t) h = ground arith
  timeout_row _ h = ground arith

  cancelled_row :
      (error : Json)
      → consistent status "cancelled" error ≡ ok tt
      → (is_plain_error error ≡ true) × (status ≡ ActionReceiptStatus.unknown)
  unfolding consistent
  cancelled_row null h = ground arith
  cancelled_row (str t) h = ground arith
  cancelled_row _ h = ground arith

  blocked_row : (error : Json) → consistent status "blocked" error ≢ ok tt
  unfolding consistent
  blocked_row null h = ground arith
  blocked_row (str t) h = ground arith
  blocked_row _ h = ground arith

listed :
    (s : String)
    → str_mem s hermes_source_statuses ≡ true
    → (s ≡ "ok") ⊎ (s ≡ "error") ⊎ (s ≡ "timeout") ⊎ (s ≡ "cancelled") ⊎ (s ≡ "blocked")
listed s h = ground (
  arith,
  eq_iff "ok" s,
  eq_iff "error" s,
  eq_iff "timeout" s,
  eq_iff "cancelled" s,
  eq_iff "blocked" s,
)

attributed_sound :
    (status : ActionReceiptStatus) (s : String) (error : Json)
    → attributed status s error ≡ ok tt
    → Means status (str s) error
unfolding attributed
attributed_sound status s error h =
    let (known, rest) =
      guard-eq-ok (str_mem s hermes_source_statuses) value_error (consistent status s error) h in
    elim (listed s known) [
      | inl e ↦
          let (none_given, means) = ok_row status error (rw e at rest) in
          inr (inl (ap str e, none_given, means))
      | inr (inl e) ↦ elim (error_row status error (rw e at rest)) [
        | inl (reserved, means) ↦ inr (inr (inl (ap str e, reserved, means)))
        | inr (plain, means) ↦ inr (inr (inr (inl (ap str e, plain, means))))
      ]
      | inr (inr (inl e)) ↦
          let (plain, means) = timeout_row status error (rw e at rest) in
          inr (inr (inr (inr (inl (ap str e, plain, means)))))
      | inr (inr (inr (inl e))) ↦
          let (plain, means) = cancelled_row status error (rw e at rest) in
          inr (inr (inr (inr (inr (ap str e, plain, means)))))
      | inr (inr (inr (inr e))) ↦ absurd (blocked_row status error (rw e at rest))
    ]

Means-sound :
    (status : ActionReceiptStatus) (source error : Json)
    → validate_receipt_source_semantics status source error ≡ ok tt
    → Means status source error
unfolding validate_receipt_source_semantics
Means-sound status null error h = ground arith
Means-sound status (str s) error h = attributed_sound status s error h
Means-sound status _ error h = cc

reserved_ok : validate_source_error_type (str thread_missing_result) ≡ ok tt
unfolding validate_source_error_type is_blank has_length
reserved_ok = refl

plain_ok : (error : Json) → is_plain_error error ≡ true → validate_source_error_type error ≡ ok tt
unfolding validate_source_error_type
plain_ok null h = refl
plain_ok (str s) h = ground arith
plain_ok _ h = ground arith

plain_not_reserved :
    (error : Json) → is_plain_error error ≡ true → is_str error thread_missing_result ≡ false
plain_not_reserved null h = refl
plain_not_reserved (str s) h = ground arith
plain_not_reserved _ h = ground arith

Means-complete :
    (status : ActionReceiptStatus) (source error : Json)
    → Means status source error
    → validate_receipt_source_semantics status source error ≡ ok tt
unfolding validate_receipt_source_semantics attributed consistent
Means-complete status source error (inl (s, e)) = rw (s, e)
Means-complete status source error (inr (inl (s, e, m))) = rw (s, e, m)
Means-complete status source error (inr (inr (inl (s, e, m)))) =
    rw (s, e, m) (unfold validate_source_error_type is_blank has_length expected_status in refl)
Means-complete status source error (inr (inr (inr (inl (s, e, m))))) =
    simp (s, m, plain_ok error e, plain_not_reserved error e)
Means-complete status source error (inr (inr (inr (inr (inl (s, e, m)))))) =
    simp (s, m, plain_ok error e, plain_not_reserved error e)
Means-complete status source error (inr (inr (inr (inr (inr (s, e, m)))))) =
    simp (s, m, plain_ok error e, plain_not_reserved error e)

-- The validator accepts a receipt status with its attributed source and error type exactly in the rows of the table.
pub receipt_source_table :
    (status : ActionReceiptStatus) (source error : Json)
    → (validate_receipt_source_semantics status source error ≡ ok tt) ↔ Means status source error
receipt_source_table status source error =
    (Means-sound status source error, Means-complete status source error)
