-- ===== src/Store/Schema/Collapsed.antt =====
-- agent/src/store/schema.rs: what becomes of a record of the schema before the axes.
use analytics.Common.{
  ◌≡◌, ◌≢◌, refl, ◌⊎◌, inl, inr, ◌↔◌, Bool, true, false, none, some, codes, text_eq, text_eq_iff,
  if◌then◌else◌, arith,
}
use analytics.Store.Records.{ExceptionTriage, LegacyTriage}
use analytics.Store.Schema.{migrated}

-- The axes of a record that was a collapsed one: a resolved group is resolved and not muted, an
-- ignored one is muted and not resolved, each since the last update, and any other is neither. Its
-- note and its last update are kept.
pub record AsAxes {T : Type 0} (legacy : LegacyTriage T) (t : ExceptionTriage T) : Type 0 where
  pub axes :
      ((legacy.status ≡ codes "resolved")
        × (t.resolved_at ≡ some legacy.updated_at)
        × (t.muted_at ≡ none))
      ⊎ (((legacy.status ≡ codes "ignored")
            × (t.resolved_at ≡ none)
            × (t.muted_at ≡ some legacy.updated_at))
          ⊎ ((legacy.status ≢ codes "resolved")
              × (legacy.status ≢ codes "ignored")
              × (t.resolved_at ≡ none)
              × (t.muted_at ≡ none)))
  pub note : t.note ≡ legacy.note
  pub updated_at : t.updated_at ≡ legacy.updated_at
  pub updated_by : t.updated_by ≡ legacy.updated_by

pub migrated-AsAxes : {T : Type 0} (legacy : LegacyTriage T) → AsAxes legacy (migrated legacy)
migrated-AsAxes legacy = record {
  axes =
      by (text_eq legacy.status (codes "resolved")) (text_eq legacy.status (codes "ignored"))
        (text_eq_iff legacy.status (codes "resolved"))
        (text_eq_iff legacy.status (codes "ignored"));
  note = refl;
  updated_at = refl;
  updated_by = refl;
}
  where
    by :
        (r i : Bool)
        → (r ≡ true) ↔ (legacy.status ≡ codes "resolved")
        → (i ≡ true) ↔ (legacy.status ≡ codes "ignored")
        → ((legacy.status ≡ codes "resolved")
            × ((if r then some legacy.updated_at else none) ≡ some legacy.updated_at)
            × ((if r then none else if i then some legacy.updated_at else none) ≡ none))
          ⊎ (((legacy.status ≡ codes "ignored")
                × ((if r then some legacy.updated_at else none) ≡ none)
                × ((if r then none else if i then some legacy.updated_at else none)
                    ≡ some legacy.updated_at))
              ⊎ ((legacy.status ≢ codes "resolved")
                  × (legacy.status ≢ codes "ignored")
                  × ((if r then some legacy.updated_at else none) ≡ none)
                  × ((if r then none else if i then some legacy.updated_at else none) ≡ none)))
    by true i res ign = inl (res.0 refl, refl, refl)
    by false true res ign = inr (inl (ign.0 refl, refl, refl))
    by false false res ign = inr (inr (λ e. ground arith, λ e. ground arith, refl, refl))
