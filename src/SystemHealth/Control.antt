-- ===== src/SystemHealth/Control.antt =====
-- frontend/src/domains/system-health/application/useServiceControl.ts: the patch of the cached
-- summary with the fresh state of one service.
use openscale.Base.{
  ℕ, Text, text_eq, List, [], ◌∷◌, map, Option, none, some, if◌then◌else◌, get_elem?, ◌≡◌, ◌≢◌,
  refl, ap, ap₂, sym, ◌∙◌, zero, suc, text_eq_iff, Bool-cases, inl, inr,
}
use openscale.SystemHealth.Rules.{ServiceHealth, SystemHealthSummary, derive_overall_status}
use openscale.SystemHealth.Sorting.{IsWorst, derive_overall_status-IsWorst}

pub data ContainerAction : Type 0 where
  start stop restart : ContainerAction

abbrev pub patched : ServiceHealth → ServiceHealth → ServiceHealth
patched updated s = if text_eq s.id updated.id then updated else s

-- The updater that `setQueryData` is given: `undefined` stays `undefined`.
unfoldable pub on_success : ServiceHealth → Option SystemHealthSummary → Option SystemHealthSummary
on_success updated none = none
on_success updated (some current) =
    let services = map (patched updated) current.services in
    some (record { services = services; overall_status = derive_overall_status services })

get_elem?-map {ℓ κ} :
    {A : Type ℓ} {B : Type κ} (f : A → B) (xs : List A) (i : ℕ) (x : A)
    → get_elem? xs i ≡ some x
    → get_elem? (map f xs) i ≡ some (f x)
get_elem?-map f [] i x h = cc
get_elem?-map f (y ∷ ys) zero x h = cc
get_elem?-map f (y ∷ ys) (suc i) x h = get_elem?-map f ys i x h

patched-eq : (updated s : ServiceHealth) → s.id ≡ updated.id → patched updated s ≡ updated
patched-eq updated s h = rw ((text_eq_iff s.id updated.id).1 h)

patched-ne : (updated s : ServiceHealth) → s.id ≢ updated.id → patched updated s ≡ s
patched-ne updated s h = elim (Bool-cases (text_eq s.id updated.id)) [
  | inl same ↦ absurd (h ((text_eq_iff s.id updated.id).0 same))
  | inr other ↦ rw other
]

patched-id : (updated s : ServiceHealth) → (patched updated s).id ≡ s.id
patched-id updated s = elim (Bool-cases (text_eq s.id updated.id)) [
  | inl same ↦ rw same (sym ((text_eq_iff s.id updated.id).0 same))
  | inr other ↦ rw other
]

abbrev pub ids : List ServiceHealth → List Text
ids = map (λ s. s.id)

ids-map-patched :
    (updated : ServiceHealth) (services : List ServiceHealth)
    → ids (map (patched updated) services) ≡ ids services
ids-map-patched updated [] = refl
ids-map-patched updated (s ∷ ss) = ap₂ ◌∷◌ (patched-id updated s) (ids-map-patched updated ss)

-- What the patch of a cached summary leaves behind.
pub record IsPatched (updated : ServiceHealth) (before after : SystemHealthSummary) : Type 0 where
  pub same_ids : ids after.services ≡ ids before.services
  pub replaced :
      (i : ℕ) (s : ServiceHealth)
      → get_elem? before.services i ≡ some s
      → s.id ≡ updated.id
      → get_elem? after.services i ≡ some updated
  pub kept :
      (i : ℕ) (s : ServiceHealth)
      → get_elem? before.services i ≡ some s
      → s.id ≢ updated.id
      → get_elem? after.services i ≡ some s
  pub worst : IsWorst after.services after.overall_status

-- After an action the cached list has the same ids in the same order, the fresh service in every
-- place of its id and every other service unchanged, and the overall status is again the worst of
-- the list, whatever it was before.
pub on_success-IsPatched :
    (updated : ServiceHealth) (before : SystemHealthSummary)
    → (after : SystemHealthSummary) × (on_success updated (some before) ≡ some after)
      × IsPatched updated before after
unfolding on_success
on_success-IsPatched updated before = (
  record {
    services = map (patched updated) before.services;
    overall_status = derive_overall_status (map (patched updated) before.services);
  },
  refl,
  record {
    same_ids = ids-map-patched updated before.services;
    replaced = λ i s h e.
        get_elem?-map (patched updated) before.services i s h ∙ ap some (patched-eq updated s e);
    kept = λ i s h e.
        get_elem?-map (patched updated) before.services i s h ∙ ap some (patched-ne updated s e);
    worst = derive_overall_status-IsWorst (map (patched updated) before.services);
  },
)
