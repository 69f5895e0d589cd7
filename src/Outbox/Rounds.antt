-- ===== src/Outbox/Rounds.antt =====
-- What a round of the relay does to the table.
use duragraph.Base.{
  ℕ, ◌+◌, ◌≤◌, ◌≡◌, ◌⊎◌, refl, sym, true, false, Bool-cases, Option, none, some, Option-cases, List,
  String, arith, All, inl, inr, length, Pairwise, map-Pairwise,
}
use mathlib.Core.List.{Memᴰ}
use mathlib.Core.Path.{subst}
use duragraph.Task.Selection.{Distinct, All-mem, All-map, All-self}
use duragraph.Outbox.{
  Message, failed_now, is_due, is_ready, ready_by_age, retry_delay, get_unpublished, process_outbox,
}
use duragraph.Outbox.Order.{ready_by_age-mem, ready_by_age-IsSorted, limit_to-oldest}
use duragraph.Outbox.Relay.{ids}
use duragraph.Outbox.Batches.{
  Keyed-ids, batch-All, is_in, mem-is_in, is_in_some, length-limit_to, relayed, rows-process_outbox,
  unique,
}

-- A row that waits for no later time.
abbrev pub IsDue : ℕ → Message → Type 0
IsDue now m =
    (m.published ≡ false)
    × ((m.next_retry_at ≡ none) ⊎ ((at : ℕ) × (m.next_retry_at ≡ some at) × (at ≤ now)))

ready : (now : ℕ) (m : Message) → IsDue now m → is_ready now m ≡ true
unfolding is_ready is_due
ready now m (p, inl n) = rw p (rw n refl)
ready now m (p, inr (at, e, h)) = rw p (rw e (ground (arith, h)))

due : (now : ℕ) (m : Message) → is_ready now m ≡ true → IsDue now m
unfolding is_ready is_due
due now m h = (
  ground arith,
  elim (Option-cases m.next_retry_at) [
    | inl e ↦ inl e
    | inr (at, e) ↦ inr (at, e, ground (arith, h, e))
  ],
)

-- A due row is in the batch, or the batch is full of rows that are not younger.
pub record Served (now limit : ℕ) (batch : List Message) (m : Message) : Type 0 where
  pub served :
      IsDue now m
      → Memᴰ m batch ⊎ ((length batch ≡ limit) × All (λ n. n.created_at ≤ m.created_at) batch)

-- What a round has to make of a row.
pub record Relays (publish : Message → Option String) (now : ℕ) (batch : List Message)
    (m n : Message) : Type 0 where
  pub kept : ¬ Memᴰ m batch → n ≡ m
  pub sent :
      Memᴰ m batch → publish m ≡ none → n ≡ record m { published = true; published_at = some now }
  pub failed :
      (error : String)
      → Memᴰ m batch
      → publish m ≡ some error
      → n ≡ record m {
        attempts = m.attempts + 1;
        last_error = some error;
        next_retry_at = some (now + retry_delay m.attempts);
      }

batch-Served :
    (now limit : ℕ) (ms : List Message) (m : Message)
    → Memᴰ m ms
    → Served now limit (get_unpublished now limit ms) m
unfolding get_unpublished
batch-Served now limit ms m k = record {
  served = λ d.
      limit_to-oldest limit (ready_by_age now ms) m (ready_by_age-IsSorted now ms)
        (ready_by_age-mem now ms m k (ready now m d));
}

same_row :
    (now limit : ℕ) (ms : List Message)
    → Distinct (ids ms)
    → (m : Message) → Memᴰ m ms
    → is_in m.id (get_unpublished now limit ms) ≡ true
    → Memᴰ m (get_unpublished now limit ms)
same_row now limit ms d m k e =
    let batch = get_unpublished now limit ms in
    let (n, l, f) = is_in_some m.id batch e in
    subst (λ (o : Message). Memᴰ o batch)
      (unique ms n m (Keyed-ids ms d)
        (All-mem (λ m. Memᴰ m ms × (is_ready now m ≡ true)) batch (batch-All now limit ms) l).0 k f)
      l

relayed-Relays :
    (publish : Message → Option String) (now limit : ℕ) (ms : List Message)
    → Distinct (ids ms)
    → (m : Message) → Memᴰ m ms
    → let batch = get_unpublished now limit ms in
      Relays publish now batch m (relayed publish now batch m)
unfolding failed_now
relayed-Relays publish now limit ms d m k =
    let batch = get_unpublished now limit ms in
    record {
      kept = λ n. elim (Bool-cases (is_in m.id batch)) [
        | inl e ↦ absurd (n (same_row now limit ms d m k e))
        | inr e ↦ rw e refl
      ];
      sent = λ l e. rw (mem-is_in m batch l) (rw e refl);
      failed = λ x l e. rw (mem-is_in m batch l) (rw e refl);
    }

-- One round of the relay tries at most as many rows as it is asked for, all of them rows that are
-- not published and wait for no later time. A due row is tried, unless the round is full of rows
-- that are not younger. A row that is tried is marked as published now if the publisher gave no
-- error; otherwise it has one more attempt, the error, and waits for the delay of its attempts. No
-- other row is changed, nor the order of the rows. The ids of the rows have to differ.
pub process_outbox_lem :
    (publish : Message → Option String) (now limit : ℕ) (ms : List Message)
    → Distinct (ids ms)
    → let batch = get_unpublished now limit ms in
      (length batch ≤ limit)
      × All (λ m. Memᴰ m ms × IsDue now m) batch
      × All (Served now limit batch) ms
      × Pairwise (Relays publish now batch) ms (process_outbox publish now limit ms)
unfolding get_unpublished
process_outbox_lem publish now limit ms d =
    let batch = get_unpublished now limit ms in
    (
      length-limit_to limit (ready_by_age now ms),
      All-map (λ m. Memᴰ m ms × (is_ready now m ≡ true)) (λ m. Memᴰ m ms × IsDue now m) batch
          (λ m h. (h.0, due now m h.1)) (batch-All now limit ms),
      All-map (λ m. Memᴰ m ms) (Served now limit batch) ms (batch-Served now limit ms)
          (All-self ms),
      subst (Pairwise (Relays publish now batch) ms)
          (sym (rows-process_outbox publish now limit ms d))
          (map-Pairwise (Relays publish now batch) (relayed publish now batch) ms (
            All-map (λ m. Memᴰ m ms) (λ m. Relays publish now batch m (relayed publish now batch m))
              ms (relayed-Relays publish now limit ms d) (All-self ms))),
    )
