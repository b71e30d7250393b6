-- ===== src/Ingest/Compactor/Partitions.antt =====
-- The partition files after the loop over the days.
use analytics.Common.{
  ℕ, ◌+◌, ℤ, ◌≡◌, refl, sym, ◌∙◌, Option, none, some, List, [], ◌∷◌, arith, inl, inr, if◌then◌else◌,
  length,
}
use analytics.Store.Event.{StoredEvent}
use analytics.Store.Db.{Error, ok, err, ◌>>=◌, bind-eq-ok, Result-cases}
use analytics.Ingest.Compactor.{Date, eq_ℤ, Partition, Groups, lookup_date, Archive, write_groups}
use analytics.Ingest.Compactor.Groups.{IsDistinct, date_eq_iff, size}

-- The partitions of one stamp are replaced by the groups; all others are as they were.
abbrev pub overlaid :
    Option (List StoredEvent) → Option (List StoredEvent) → Option (List StoredEvent)
overlaid none old = old
overlaid (some g) old = some g

module _ (A : Archive) where
  -- A successful loop has written the first group, and the rest of the loop has succeeded.
  write_groups-inv :
      (stamp : ℤ) (c : Date) (g : List StoredEvent) (m : Groups) (f : A.Files) (n : ℕ)
      → (write_groups A stamp ((c, g) ∷ m) f).0 ≡ ok n
      → (f' : A.Files) × (A.write_partition g (record { date = c; stamp = stamp }) f ≡ ok f')
        × (n' : ℕ) × ((write_groups A stamp m f').0 ≡ ok n')
        × (n ≡ length g + n')
        × ((write_groups A stamp ((c, g) ∷ m) f).1 ≡ (write_groups A stamp m f').1)
  unfolding write_groups
  write_groups-inv stamp c g m f n h =
      elim (Result-cases (A.write_partition g (record { date = c; stamp = stamp }) f)) [
        | inl (x, bad) ↦ cc (bad_ends x bad)
        | inr (f', good) ↦
            let (n', rest, sum) =
              bind-eq-ok (write_groups A stamp m f').0 _ n (sym (good_result f' good) ∙ h) in
            (f', good, n', rest, cc, good_files f' good)
      ]
    where
      good_result :
          (f' : A.Files)
          → A.write_partition g (record { date = c; stamp = stamp }) f ≡ ok f'
          → (write_groups A stamp ((c, g) ∷ m) f).0
            ≡ ((write_groups A stamp m f').0 >>= λ k. ok (length g + k))
      good_result f' e = rw (e, write_groups) refl

      good_files :
          (f' : A.Files)
          → A.write_partition g (record { date = c; stamp = stamp }) f ≡ ok f'
          → (write_groups A stamp ((c, g) ∷ m) f).1 ≡ (write_groups A stamp m f').1
      good_files f' e = rw (e, write_groups) refl

      bad_result :
          (x : Error)
          → A.write_partition g (record { date = c; stamp = stamp }) f ≡ err x
          → (write_groups A stamp ((c, g) ∷ m) f).0 ≡ err x
      bad_result x e = rw (e, write_groups) refl

      bad_ends :
          (x : Error)
          → A.write_partition g (record { date = c; stamp = stamp }) f ≡ err x
          → err x ≡ ok n
      bad_ends x e = sym (bad_result x e) ∙ h

  pub read-write_groups :
      (stamp : ℤ) (m : Groups) (f : A.Files) (n : ℕ) (q : Partition)
      → IsDistinct m
      → (write_groups A stamp m f).0 ≡ ok n
      → A.read_partition (write_groups A stamp m f).1 q ≡ (
          if eq_ℤ stamp q.stamp
          then overlaid (lookup_date q.date m) (A.read_partition f q)
          else A.read_partition f q)
  read-write_groups stamp [] f n q d h = unfold write_groups in ground arith
  read-write_groups stamp ((c, g) ∷ m) f n q d h =
      let (f', wrote, n', rest, sum, same) = write_groups-inv stamp c g m f n h in
      rw same (
        ground (
          arith,
          read-write_groups stamp m f' n' q d.1 rest,
          date_eq_iff c q.date,
          A.read-write g (record { date = c; stamp = stamp }) f f' wrote q,
        ))

  pub count-write_groups :
      (stamp : ℤ) (m : Groups) (f : A.Files) (n : ℕ)
      → (write_groups A stamp m f).0 ≡ ok n
      → n ≡ size m
  count-write_groups stamp [] f n h = unfold write_groups in ground arith
  count-write_groups stamp ((c, g) ∷ m) f n h =
      let (f', wrote, n', rest, sum, same) = write_groups-inv stamp c g m f n h in
      omega (arith, count-write_groups stamp m f' n' rest)
