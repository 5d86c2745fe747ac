-- ===== src/L3/Handlers/Failures.antt =====
-- l3_finality.go: a cell that keeps failing is quarantined, and then ignored.
use custom_consensus.Base.{
  ℕ, zero, suc, ◌+◌, ◌≤◌, ◌<◌, ◌≡◌, ◌∙◌, refl, ap, some, Text, Map, get, put, get-put_self, arith,
}
use custom_consensus.L3.State.{
  Weights, L3, Outside, CellStatus, cell_quarantined, CellRecord, L3Attestation,
}
use custom_consensus.L3.Cells.{is_active, update_status, with_status, quarantine_cell}
use custom_consensus.L3.Handlers.{failures_of, record_failure, on_attestation, attest_known}

failures_of_self : (m : Map ℕ) (id : Text) (n : ℕ) → failures_of (put id n m) id ≡ n
unfolding failures_of
failures_of_self m id n = rw (get-put_self id n m, failures_of) refl

update_status_self :
    (m : Map CellRecord) (id : Text) (st : CellStatus) (now : ℕ) (rec : CellRecord)
    → get id m ≡ some rec
    → get id (update_status m id st now) ≡ some (record rec { status = st; updated = now })
unfolding update_status with_status
update_status_self m id st now rec e =
    ap (λ v. get id (with_status m id st now v)) e ∙ get-put_self id _ m

few : (n f : ℕ) {a m k : ℕ} → a ≡ n + f → m ≡ k → suc n + f < k → a + 1 < m
few n f p q h = omega arith

module _ {R : Type 0} where
  -- `recordFailure`, called this many times.
  unfoldable pub fail_times : ℕ → L3 R → Text → ℕ → L3 R
  fail_times zero s id now = s
  fail_times (suc n) s id now = record_failure (fail_times n s id now) id now

  record_failure-misbehave :
      (s : L3 R) (id : Text) (now : ℕ)
      → (record_failure s id now).misbehave ≡ put id (failures_of s.misbehave id + 1) s.misbehave
  unfolding record_failure quarantine_cell
  record_failure-misbehave s id now = ground arith

  record_failure-params :
      (s : L3 R) (id : Text) (now : ℕ) → (record_failure s id now).params ≡ s.params
  unfolding record_failure quarantine_cell
  record_failure-params s id now = ground arith

  record_failure-cells_few :
      (s : L3 R) (id : Text) (now : ℕ)
      → failures_of s.misbehave id + 1 < s.params.max_misbehavior
      → (record_failure s id now).cells ≡ s.cells
  unfolding record_failure quarantine_cell
  record_failure-cells_few s id now h = ground arith

  record_failure-cells_many :
      (s : L3 R) (id : Text) (now : ℕ)
      → s.params.max_misbehavior ≤ failures_of s.misbehave id + 1
      → (record_failure s id now).cells ≡ update_status s.cells id cell_quarantined now
  unfolding record_failure quarantine_cell
  record_failure-cells_many s id now h = ground arith

  fail_times-params :
      (n : ℕ) (s : L3 R) (id : Text) (now : ℕ) → (fail_times n s id now).params ≡ s.params
  unfolding fail_times
  fail_times-params zero s id now = refl
  fail_times-params (suc n) s id now =
      record_failure-params (fail_times n s id now) id now ∙ fail_times-params n s id now

  fail_times-failures_of :
      (n : ℕ) (s : L3 R) (id : Text) (now : ℕ)
      → failures_of (fail_times n s id now).misbehave id ≡ n + failures_of s.misbehave id
  unfolding fail_times
  fail_times-failures_of zero s id now = omega arith
  fail_times-failures_of (suc n) s id now =
      ap (λ m. failures_of m id) (record_failure-misbehave (fail_times n s id now) id now)
      ∙ failures_of_self _ id _
      ∙ omega (arith, fail_times-failures_of n s id now)

  fail_times-cells :
      (n : ℕ) (s : L3 R) (id : Text) (now : ℕ)
      → n + failures_of s.misbehave id < s.params.max_misbehavior
      → (fail_times n s id now).cells ≡ s.cells
  unfolding fail_times
  fail_times-cells zero s id now h = refl
  fail_times-cells (suc n) s id now h =
      record_failure-cells_few (fail_times n s id now) id now (
        few n (failures_of s.misbehave id) (fail_times-failures_of n s id now)
          (ap (λ p. p.max_misbehavior) (fail_times-params n s id now)) h)
      ∙ fail_times-cells n s id now (omega arith)

  -- The cell's record is in quarantine.
  abbrev pub Quarantined : L3 R → Text → Type 0
  Quarantined s id =
      (rec : CellRecord) × (get id s.cells ≡ some rec) × (rec.status ≡ cell_quarantined)

  last_failure :
      (s : L3 R) (id : Text) (now : ℕ) (rec : CellRecord)
      → get id s.cells ≡ some rec
      → s.params.max_misbehavior ≤ failures_of s.misbehave id + 1
      → Quarantined (record_failure s id now) id
  last_failure s id now rec e h = (
    record rec { status = cell_quarantined; updated = now },
    ap (get id) (record_failure-cells_many s id now h)
        ∙ update_status_self s.cells id cell_quarantined now rec e,
    refl,
  )

  fail_times-Quarantined :
      (n : ℕ) (s : L3 R) (id : Text) (now : ℕ) (rec : CellRecord)
      → get id s.cells ≡ some rec
      → s.params.max_misbehavior ≡ suc n + failures_of s.misbehave id
      → Quarantined (fail_times (suc n) s id now) id
  unfolding fail_times
  fail_times-Quarantined n s id now rec e h =
      last_failure (fail_times n s id now) id now rec
        (ap (get id) (fail_times-cells n s id now (omega arith)) ∙ e)
        (omega (
          arith,
          fail_times-failures_of n s id now,
          ap (λ p. p.max_misbehavior) (fail_times-params n s id now),
        ))

  module _ (w : Weights R) (o : Outside R) where
    attest_known_quarantined :
        (s : L3 R) (att : L3Attestation) (now : ℕ) (rec : CellRecord)
        → rec.status ≡ cell_quarantined
        → attest_known w o s att now (some rec) ≡ some s
    unfolding attest_known is_active
    attest_known_quarantined s att now rec status = rw (ap is_active status, attest_known) refl

    on_attestation-Quarantined :
        (s : L3 R) (att : L3Attestation) (now : ℕ)
        → Quarantined s att.cell_id
        → on_attestation w o s (some att) now ≡ some s
    unfolding on_attestation attest_known is_active
    on_attestation-Quarantined s att now (rec, found, status) =
        ap (attest_known w o s att now) found ∙ attest_known_quarantined s att now rec status

    -- A cell without failures keeps its status through fewer failures than `MaxMisbehavior` allows. As
    -- many put it in quarantine, and then the handler ignores every attestation that names the cell.
    pub fail_times_lem :
        (s : L3 R) (id : Text) (now : ℕ) (rec : CellRecord) (n k : ℕ) (att : L3Attestation)
        (later : ℕ)
        → get id s.cells ≡ some rec
        → failures_of s.misbehave id ≡ 0
        → s.params.max_misbehavior ≡ suc n
        → k ≤ n
        → ((fail_times k s id now).cells ≡ s.cells)
          × Quarantined (fail_times (suc n) s id now) id
          × (on_attestation w o
                (fail_times (suc n) s id now)
                (some (record att { cell_id = id }))
                later
              ≡ some (fail_times (suc n) s id now))
    fail_times_lem s id now rec n k att later found none_yet max le =
        let q = fail_times-Quarantined n s id now rec found (omega arith) in
        (
          fail_times-cells k s id now (omega arith),
          q,
          on_attestation-Quarantined (fail_times (suc n) s id now) (record att { cell_id = id })
              later q,
        )
