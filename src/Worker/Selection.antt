-- ===== src/Worker/Selection.antt =====
-- Which worker the registry selects, and what the clean-up leaves of the registry.
use duragraph.Base.{
  false, List, ◌↔◌, ℕ, ◌+◌, ◌≡◌, refl, sym, true, ◌&&◌, none, some, [], ◌∷◌, String, arith, length,
  Bool-cases, inl, inr,
}
use mathlib.Core.List.{Memᴰ}
use mathlib.Core.Path.{subst}
use duragraph.Worker.{
  Worker, Registry, can_execute, has_capacity, is_healthy, find_worker_for_graph,
  get_healthy_workers, get_all_workers, cleanup_stale_workers,
}

-- A healthy worker with room for a run of the graph.
abbrev pub IsEligible : String → ℕ → ℕ → Worker → Type 0
IsEligible graph now threshold w =
    (can_execute graph w ≡ true) × (has_capacity w ≡ true) × (is_healthy now threshold w ≡ true)

find_worker_sound :
    (graph : String) (now threshold : ℕ) (r : Registry) (w : Worker)
    → find_worker_for_graph graph now threshold r ≡ some w
    → Memᴰ w (get_all_workers r) × IsEligible graph now threshold w
unfolding find_worker_for_graph get_all_workers
find_worker_sound graph now threshold [] w h = cc
find_worker_sound graph now threshold ((id, v) ∷ r) w h =
    elim (Bool-cases (can_execute graph v && has_capacity v && is_healthy now threshold v)) [
      | inl e ↦
          let q : v ≡ w = ground arith in
          (
            Memᴰ.head (sym q),
            subst (IsEligible graph now threshold) q (ground arith, ground arith, ground arith),
          )
      | inr e ↦
          let (m, k) = find_worker_sound graph now threshold r w (rw e at h) in (Memᴰ.tail m, k)
    ]

find_worker_complete :
    (graph : String) (now threshold : ℕ) (r : Registry)
    → find_worker_for_graph graph now threshold r ≡ none
    → (w : Worker) → Memᴰ w (get_all_workers r)
    → ¬ IsEligible graph now threshold w
unfolding find_worker_for_graph get_all_workers
find_worker_complete graph now threshold [] h w m = λ k. elim m [ ]
find_worker_complete graph now threshold ((id, v) ∷ r) h w (Memᴰ.head p) =
    λ k. let k' = subst (IsEligible graph now threshold) p k in ground arith
find_worker_complete graph now threshold ((id, v) ∷ r) h w (Memᴰ.tail m) =
    find_worker_complete graph now threshold r (ground arith) w m

-- A worker that `FindWorkerForGraph` gives is registered and eligible, and it gives none only if
-- no registered worker is eligible.
pub find_worker_iff :
    (graph : String) (now threshold : ℕ) (r : Registry)
    → ((w : Worker)
        → find_worker_for_graph graph now threshold r ≡ some w
        → Memᴰ w (get_all_workers r) × IsEligible graph now threshold w)
      × (find_worker_for_graph graph now threshold r ≡ none
          → (w : Worker) → Memᴰ w (get_all_workers r)
          → ¬ IsEligible graph now threshold w)
find_worker_iff graph now threshold r =
    (find_worker_sound graph now threshold r, find_worker_complete graph now threshold r)

-- The workers of a list that are eligible.
abbrev pub Choice : String → ℕ → ℕ → List Worker → Worker → Type 0
Choice graph now threshold ws w = Memᴰ w ws × IsEligible graph now threshold w

kept-Choice :
    (graph : String) (now threshold : ℕ) (v w : Worker) (kept all : List Worker)
    → (Choice graph now threshold kept w ↔ Choice graph now threshold all w)
    → Choice graph now threshold (v ∷ kept) w ↔ Choice graph now threshold (v ∷ all) w
kept-Choice graph now threshold v w kept all h = (into, back)
  where
    into : Choice graph now threshold (v ∷ kept) w → Choice graph now threshold (v ∷ all) w
    into (Memᴰ.head p, e) = (Memᴰ.head p, e)
    into (Memᴰ.tail m, e) = (Memᴰ.tail (h.0 (m, e)).0, e)

    back : Choice graph now threshold (v ∷ all) w → Choice graph now threshold (v ∷ kept) w
    back (Memᴰ.head p, e) = (Memᴰ.head p, e)
    back (Memᴰ.tail m, e) = (Memᴰ.tail (h.1 (m, e)).0, e)

removed-Choice :
    (graph : String) (now threshold : ℕ) (v w : Worker) (kept all : List Worker)
    → is_healthy now threshold v ≡ false
    → (Choice graph now threshold kept w ↔ Choice graph now threshold all w)
    → Choice graph now threshold kept w ↔ Choice graph now threshold (v ∷ all) w
removed-Choice graph now threshold v w kept all stale h = ((λ k. (Memᴰ.tail (h.0 k).0, k.1)), back)
  where
    back : Choice graph now threshold (v ∷ all) w → Choice graph now threshold kept w
    back (Memᴰ.head p, e) =
        let healthy = (subst (IsEligible graph now threshold) p e).2 in cc (healthy, stale)
    back (Memᴰ.tail m, e) = h.1 (m, e)

-- The clean-up leaves exactly the healthy workers, says how many it removed, and takes no worker from
-- the selection: those that are eligible for a graph are the same before and after it.
pub cleanup_agrees :
    (graph : String) (now threshold : ℕ) (r : Registry)
    → let (kept, removed) = cleanup_stale_workers now threshold r in
      (get_all_workers kept ≡ get_healthy_workers now threshold r)
      × ((w : Worker)
          → Choice graph now threshold (get_all_workers kept) w
            ↔ Choice graph now threshold (get_all_workers r) w)
      × (length kept + removed ≡ length r)
unfolding cleanup_stale_workers get_all_workers get_healthy_workers
cleanup_agrees graph now threshold [] = (refl, λ w. ((λ h. h), λ h. h), refl)
cleanup_agrees graph now threshold ((id, v) ∷ r) =
    let (same, eligible, counted) = cleanup_agrees graph now threshold r in
    (
      ground (arith, same),
      λ w. elim (Bool-cases (is_healthy now threshold v)) [
        | inl e ↦ rw e (
            kept-Choice graph now threshold v w
              (get_all_workers (cleanup_stale_workers now threshold r).0) (get_all_workers r)
              (eligible w))
        | inr e ↦ rw e (
            removed-Choice graph now threshold v w
              (get_all_workers (cleanup_stale_workers now threshold r).0) (get_all_workers r) e
              (eligible w))
      ],
      ground (arith, counted),
    )
