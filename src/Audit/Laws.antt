-- ===== src/Audit/Laws.antt =====
-- The downgrade rule: an allow stands only with its row, and a refusal stands either way.
use warehousd.Prelude.{
  String, ◌≡◌, ◌⊎◌, inl, inr, true, false, Option, none, some, [], ◌∷◌, ◌++◌, arith, Option-cases,
}
use warehousd.Audit.{
  allowed, refused, AuditDetail, Trail, AuditWriter, row_of, recorded, unrecorded, allow, refuse,
}

-- With auditing on, an allow that is returned as one left exactly its row at the end of the trail,
-- and one that was not recorded left the trail as it was. With auditing off, every allow stands
-- and no row is written.
pub allow_sealed :
    (w : AuditWriter) (collection : Option String) (detail : AuditDetail) (trail : Trail)
    → (w.enabled ≡ true
        → (((id : String) × (allow w collection detail trail
                ≡ (recorded (some id), trail ++ row_of w collection allowed none detail ∷ [])))
            ⊎ (allow w collection detail trail ≡ (unrecorded, trail))))
      × (w.enabled ≡ false → allow w collection detail trail ≡ (recorded none, trail))
unfolding allow
allow_sealed w collection detail trail = (
  λ on. elim (Option-cases (w.sink trail (row_of w collection allowed none detail))) [
    | inl e ↦ inr (ground arith)
    | inr (id, e) ↦ inl (id, ground arith)
  ],
  λ off. ground arith,
)

-- A refusal keeps its reason whether or not it was recorded, and adds at most its own row.
pub refuse_stands :
    (w : AuditWriter) (collection : Option String) (reason : String) (detail : AuditDetail)
    (trail : Trail)
    → ((refuse w collection reason detail trail).0.reason ≡ reason)
      × (((refuse w collection reason detail trail).1 ≡ trail)
          ⊎ ((refuse w collection reason detail trail).1
              ≡ trail ++ row_of w collection refused (some reason) detail ∷ []))
unfolding refuse
refuse_stands w collection reason detail trail = (ground arith, ground arith)
