-- ===== src/Server/Queries/Reported.antt =====
-- When a change of a table is reported as done.
use dgc_database_tp.Prelude.{
  ◌≤◌, ◌+◌, String, ◌&&◌, Option, none, some, ◌≡◌, refl, ◌↔◌, inl, inr, Bool-cases, ltb, ◌==◌,
  ℕ_test, arith,
}
use dgc_database_tp.Server.Queries.{
  Outcome, failed, answered, Promised, resolved, rejected, Summary, check_inserted, check_updated,
  modify_table, insert_table, update_table,
}

-- The driver had a result without errors.
abbrev IsClean : Outcome (Option Summary) → Summary → Type 0
IsClean answer s = (answer ≡ answered (some s)) × (s.errors ≡ 0)

modify_table-resolved :
    (table : String) (answer : Outcome (Option Summary)) (s : Summary)
    → modify_table table answer ≡ resolved s
    → IsClean answer s
unfolding modify_table
modify_table-resolved table (failed text) s h = cc
modify_table-resolved table (answered none) s h = cc
modify_table-resolved table (answered (some r)) s h = elim (Bool-cases (ltb 0 r.errors)) [
  | inl bad ↦ absurd (let e : rejected _ ≡ resolved s = rw bad at h in cc)
  | inr clean ↦
      let e : resolved r ≡ resolved s = rw clean at h in
      let p : r ≡ s = cc in rw⁻¹ p (refl, ground arith)
]

modify_table-clean :
    (table : String) (answer : Outcome (Option Summary)) (s : Summary)
    → IsClean answer s
    → modify_table table answer ≡ resolved s
unfolding modify_table
modify_table-clean table answer s (is, clean) = rw (is, clean) refl

check_inserted-resolved :
    (table : String) (p : Promised Summary) (s : Summary)
    → check_inserted table p ≡ resolved s
    → (p ≡ resolved s) × (1 ≤ s.inserted)
check_inserted-resolved table (rejected e) s h = cc
check_inserted-resolved table (resolved r) s h = elim (Bool-cases (r.inserted == 0)) [
  | inl nothing ↦ absurd (let e : rejected _ ≡ resolved s = rw nothing at h in cc)
  | inr some_done ↦
      let e : resolved r ≡ resolved s = rw some_done at h in
      let q : r ≡ s = cc in (e, rw⁻¹ q (ground arith))
]

check_updated-resolved :
    (primary : String) (p : Promised Summary) (s : Summary)
    → check_updated primary p ≡ resolved s
    → (p ≡ resolved s) × (1 ≤ s.replaced + s.unchanged)
check_updated-resolved primary (rejected e) s h = cc
check_updated-resolved primary (resolved r) s h =
    elim (Bool-cases (r.replaced == 0 && r.unchanged == 0)) [
      | inl nothing ↦ absurd (let e : rejected _ ≡ resolved s = rw nothing at h in cc)
      | inr some_done ↦
          let e : resolved r ≡ resolved s = rw some_done at h in
          let q : r ≡ s = cc in (e, rw⁻¹ q (ground arith))
    ]

-- An insert is reported as done exactly when the driver had a result without errors that inserted a
-- document, and an update exactly when it had one without errors that replaced a document or left
-- one unchanged.
changes_reported :
    (table primary : String) (answer : Outcome (Option Summary)) (s : Summary)
    → ((insert_table table answer ≡ resolved s) ↔ (IsClean answer s × (1 ≤ s.inserted)))
      × ((update_table table primary answer ≡ resolved s)
          ↔ (IsClean answer s × (1 ≤ s.replaced + s.unchanged)))
unfolding insert_table update_table
changes_reported table primary answer s = (
  (
    λ h.
        let (done, enough) = check_inserted-resolved table (modify_table table answer) s h in
        (modify_table-resolved table answer s done, enough),
    λ h.
        let done = modify_table-clean table answer s h.0 in
        let least = h.1 in rw done (ground arith),
  ),
  (
    λ h.
        let (done, enough) = check_updated-resolved primary (modify_table table answer) s h in
        (modify_table-resolved table answer s done, enough),
    λ h.
        let done = modify_table-clean table answer s h.0 in
        let least = h.1 in rw done (ground arith),
  ),
)
