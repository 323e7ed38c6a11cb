-- ===== src/RType/Lifetime.antt =====
-- The references of an object of src/type.cpp, and what it is freed as.
use ruminate.Base.{ℕ, ◌-◌, ◌^◌, ◌<◌, ◌≡◌, refl, Option, ◌==◌, if◌then◌else◌}
use ruminate.Glib.{Glib}
use ruminate.Errors.{ok, ◌>>=◌}
use ruminate.Backend.{TypePrx, TypeId}
use ruminate.RString.{RString}
use ruminate.RType.{r_type_alloc}
use ruminate.RType.New.{new_object}
use ruminate.RType.Alloc.{kept, freed, r_type_delete, r_type_unref}

module _ (G : Glib) (p : TypePrx) (n : ℕ) (name : Option RString) where
  delete-alloc : (t : TypeId) → r_type_delete G (new_object p t n name) ≡ r_type_alloc t
  unfolding r_type_delete r_type_alloc new_object
  delete-alloc TypeId.structure = refl
  delete-alloc _ = refl

  -- Where there are `n` references, one at least and fewer than 2 ^ 31: giving back one keeps the object
  -- with one less, and giving back the last one frees it as the very struct that r_type_alloc allocates for its kind, for every kind.
  pub r_type_unref-alloc :
      (t : TypeId)
      → 0 < n
      → n < 2 ^ 31
      → r_type_unref G (new_object p t n name) ≡ (
          if (n - 1) == 0
          then (r_type_alloc t >>= λ s. ok (freed s))
          else ok (kept (record (new_object p t n name) { refcnt = n - 1 })))
  unfolding r_type_unref new_object
  r_type_unref-alloc t h k = rw (G.dec_subtracts n h k) (rw (delete-alloc t) refl)
