-- ===== src/Campaign/Cached.antt =====
-- The datasets that `cmd_run` of prbench/cli.py prepares.
use parallel_reduction_bench.Prelude.{
  ◌≡◌, ◌≢◌, refl, sym, ap, ap₂, subst, ◌∙◌, ◌⊎◌, inl, inr, Bool-cases, none, String, String_eq,
  List, [], ◌∷◌, All, All-imp, All-map, All-self, In, In-map, ◌==◌,
}
use parallel_reduction_bench.Prelude.Result.{Result, Kind, ok, raise}
use parallel_reduction_bench.Models.{DatasetSpec}
use parallel_reduction_bench.Datasets.Cache.{CacheEntry, Metadata, cached_artifact}
use parallel_reduction_bench.Store.{update}
use parallel_reduction_bench.Sweep.Plan.{TaskSpec}
use parallel_reduction_bench.Preflight.{Builtins}
use parallel_reduction_bench.Preflight.Memory.{unique_into, unique_datasets}
use parallel_reduction_bench.Preflight.Keys.{IsKey, Planned}
use parallel_reduction_bench.Campaign.Command.{Create, put, prepare_datasets}

-- The dataset of each task is among those that are prepared.
module _ (builtins : Builtins) (planned : List TaskSpec) (injective : IsKey builtins planned) where
  -- each entry stands under its own key
  abbrev Keyed : List (String × DatasetSpec) → Type 0
  Keyed found = All (λ entry. (entry.0 ≡ builtins.json entry.1) × Planned planned entry.1) found

  abbrev Kept : DatasetSpec → List (String × DatasetSpec) → Type 0
  Kept spec found = In (builtins.json spec, spec) found

  module _ (added : DatasetSpec) (known : Planned planned added) where
    abbrev keep : List (String × DatasetSpec) → List (String × DatasetSpec)
    keep found = update (λ kept. kept) added (builtins.json added) found

    keep-Keyed : (found : List (String × DatasetSpec)) → Keyed found → Keyed (keep found)
    unfolding update
    keep-Keyed [] h = ((refl, known), tt)
    keep-Keyed ((key, spec) ∷ found) h = elim (Bool-cases (key == builtins.json added)) [
      | inl same ↦ rw same h
      | inr other ↦ rw other (h.0, keep-Keyed found h.1)
    ]

    keep-Kept :
        (spec : DatasetSpec) (found : List (String × DatasetSpec))
        → Kept spec found
        → Kept spec (keep found)
    unfolding update
    keep-Kept spec [] m = absurd m
    keep-Kept spec ((key, first) ∷ found) m = elim (Bool-cases (key == builtins.json added)) [
      | inl same ↦ rw same m
      | inr other ↦ rw other (elim m [ inl here ↦ inl here | inr i ↦ inr (keep-Kept spec found i) ])
    ]

    keep-adds : (found : List (String × DatasetSpec)) → Keyed found → Kept added (keep found)
    unfolding update
    keep-adds [] h = inl refl
    keep-adds ((key, spec) ∷ found) h = elim (Bool-cases (key == builtins.json added)) [
      | inl same ↦
          let own : key ≡ builtins.json added =
            (String_eq.test_iff key (builtins.json added)).0 same in
          let it : added ≡ spec = injective added spec known h.0.1 (sym own ∙ h.0.0) in
          rw same (inl (ap₂ (λ k s. (k, s)) (sym own) it))
      | inr other ↦ rw other (inr (keep-adds found h.1))
    ]

  unique_into-Kept :
      (spec : DatasetSpec) (tasks : List TaskSpec) (found : List (String × DatasetSpec))
      → All (λ t. Planned planned t.dataset) tasks
      → Kept spec found
      → Kept spec (unique_into builtins found tasks)
  unfolding unique_into
  unique_into-Kept spec [] found known m = m
  unique_into-Kept spec (task ∷ tasks) found known m =
      unique_into-Kept spec tasks (keep task.dataset known.0 found) known.1
        (keep-Kept task.dataset known.0 spec found m)

  unique_into-has :
      (task : TaskSpec) (tasks : List TaskSpec) (found : List (String × DatasetSpec))
      → All (λ t. Planned planned t.dataset) tasks
      → Keyed found
      → In task tasks
      → Kept task.dataset (unique_into builtins found tasks)
  unfolding unique_into
  unique_into-has task [] found known h m = absurd m
  unique_into-has task (first ∷ tasks) found known h (inl same) =
      unique_into-Kept task.dataset tasks (keep first.dataset known.0 found) known.1 (
        subst (λ t. Kept t.dataset (keep first.dataset known.0 found)) (sym same)
          (keep-adds first.dataset known.0 found h))
  unique_into-has task (first ∷ tasks) found known h (inr m) =
      unique_into-has task tasks (keep first.dataset known.0 found) known.1
        (keep-Keyed first.dataset known.0 found h) m

  unique_into-Keyed :
      (tasks : List TaskSpec) (found : List (String × DatasetSpec))
      → All (λ t. Planned planned t.dataset) tasks
      → Keyed found
      → Keyed (unique_into builtins found tasks)
  unfolding unique_into
  unique_into-Keyed [] found known h = h
  unique_into-Keyed (first ∷ tasks) found known h =
      unique_into-Keyed tasks (keep first.dataset known.0 found) known.1
        (keep-Keyed first.dataset known.0 found h)

  all_planned : All (λ t. Planned planned t.dataset) planned
  all_planned = All-imp planned (λ t m. In-map (λ u. u.dataset) t planned m) (All-self planned)

  pub unique_datasets-Planned : All (Planned planned) (unique_datasets builtins planned)
  unique_datasets-Planned =
      All-map (Planned planned) (λ entry. entry.1) (unique_into builtins [] planned)
        (All-imp (unique_into builtins [] planned) (λ entry h. h.1)
          (unique_into-Keyed planned [] all_planned tt))

  pub unique_datasets-has :
      (task : TaskSpec) → In task planned → In task.dataset (unique_datasets builtins planned)
  unique_datasets-has task m =
      In-map (λ entry. entry.1) (builtins.json task.dataset, task.dataset)
        (unique_into builtins [] planned) (unique_into-has task planned [] all_planned tt m)

Result-cases :
    {A : Type 0} (r : Result A) → ((a : A) × (r ≡ ok a)) ⊎ ((kind : Kind) × (r ≡ raise kind))
Result-cases (ok a) = inl (a, refl)
Result-cases (raise kind) = inr (kind, refl)

-- An artifact that the factory returns for a dataset of the tasks is in the cache.
abbrev pub Stores : Builtins → Create → List TaskSpec → Type 0
Stores builtins create tasks =
    (spec : DatasetSpec) (entry : CacheEntry) (m : Metadata)
    → Planned tasks spec
    → (create spec entry).0 ≡ ok m
    → cached_artifact builtins.same_spec spec (create spec entry).1 ≢ none

module _ (builtins : Builtins) (create : Create) (planned : List TaskSpec)
    (injective : IsKey builtins planned) (stores : Stores builtins create planned) where
  -- The artifact of a dataset is in the cache.
  abbrev Holds : DatasetSpec → CacheEntry → Type 0
  Holds spec entry = cached_artifact builtins.same_spec spec entry ≢ none

  abbrev pub IsCached : (DatasetSpec → CacheEntry) → DatasetSpec → Type 0
  IsCached cache spec = Holds spec (cache spec)

  abbrev prepare_all :
      List DatasetSpec → (DatasetSpec → CacheEntry) → Result (Unit {0}) × (DatasetSpec → CacheEntry)
  prepare_all = prepare_datasets builtins.json create

  module _ (made : DatasetSpec) (known : Planned planned made)
      (cache : DatasetSpec → CacheEntry) where
    abbrev stored : DatasetSpec → CacheEntry
    stored = put builtins.json made (create made (cache made)).1 cache

    stored-IsCached :
        (m : Metadata) (spec : DatasetSpec)
        → Planned planned spec
        → (create made (cache made)).0 ≡ ok m
        → (spec ≡ made) ⊎ IsCached cache spec
        → IsCached stored spec
    stored-IsCached m spec is_planned done reason =
        elim (Bool-cases (builtins.json spec == builtins.json made)) [
          | inl same ↦
              let it : spec ≡ made =
                injective spec made is_planned known ((String_eq.test_iff _ _).0 same) in
              let here : stored spec ≡ (create made (cache made)).1 = rw same refl in
              subst (Holds spec) (sym here) (
                subst (λ s. Holds s (create made (cache made)).1) (sym it)
                  (stores made (cache made) m known done))
          | inr other ↦
              let here : stored spec ≡ cache spec = rw other refl in
              subst (Holds spec) (sym here) (elim reason [
                | inl it ↦ absurd (cc (other, (String_eq.test_iff _ _).1 (ap builtins.json it)))
                | inr before ↦ before
              ])
        ]

    prepare_all-step :
        (m : Metadata) (specs : List DatasetSpec)
        → (create made (cache made)).0 ≡ ok m
        → prepare_all (made ∷ specs) cache ≡ prepare_all specs stored
    unfolding prepare_datasets
    prepare_all-step m specs done = rw (done, prepare_datasets) refl

    prepare_all-stop :
        (kind : Kind) (specs : List DatasetSpec)
        → (create made (cache made)).0 ≡ raise kind
        → (prepare_all (made ∷ specs) cache).0 ≡ raise kind
    unfolding prepare_datasets
    prepare_all-stop kind specs failed = rw (failed, prepare_datasets) refl

  -- Datasets that are prepared without an exception are in the cache, and those that were there stay.
  pub prepare_all-IsCached :
      (specs : List DatasetSpec) (cache : DatasetSpec → CacheEntry) (u : Unit {0})
      → All (Planned planned) specs
      → (prepare_all specs cache).0 ≡ ok u
      → (spec : DatasetSpec) → Planned planned spec
      → In spec specs ⊎ IsCached cache spec
      → IsCached (prepare_all specs cache).1 spec
  unfolding prepare_datasets
  prepare_all-IsCached [] cache u known h spec p (inl m) = absurd m
  prepare_all-IsCached [] cache u known h spec p (inr held) = held
  prepare_all-IsCached (made ∷ specs) cache u known h spec p reason =
      elim (Result-cases (create made (cache made)).0) [
        | inr (kind, failed) ↦
            absurd (cc (sym (prepare_all-stop made known.0 cache kind specs failed) ∙ h))
        | inl (m, done) ↦
            let step = prepare_all-step made known.0 cache m specs done in
            let held = stored-IsCached made known.0 cache m spec p done in
            subst (λ q. IsCached q.1 spec) (sym step)
              (prepare_all-IsCached specs (stored made known.0 cache) u known.1
                (ap (λ q. q.0) (sym step) ∙ h) spec p
                (elim reason [
                  | inl (inl here) ↦ inr (held (inl here))
                  | inl (inr later) ↦ inl later
                  | inr before ↦ inr (held (inr before))
                ]))
      ]
