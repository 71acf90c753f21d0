-- ===== src/RateLimit/Cleanup.antt =====
-- The cleanup of postgres-throttler.storage.ts cannot be seen by later hits.
use text.Mathlib.Text.{◌==◌ as str_eq}
use text.Mathlib.TextEquality.{eq_iff}
use hsk_3_0_app.Base.{
  ℕ, zero, suc, ◌+◌, ◌-◌, ◌≤◌, ◌≡◌, refl, sym, ap, ◌∙◌, subst, inl, inr, ◌⊎◌, Bool, true, not, ◌&&◌,
  Option, none, some, List, [], ◌∷◌, String, ltb, leb, filter, arith, Bool-cases, length,
}
use hsk_3_0_app.RateLimit.{
  Counter, Limits, first_hit, next_hit, count_hit, row_of, throttler_record, delete_batch,
  purge_batches, purge_expired, cleanup_batch_size, cleanup_max_batches,
}
use hsk_3_0_app.RateLimit.Window.{hit_row, upsert_counter-eq-hit_row}

-- The keys of the rows are distinct: the table's unique key.
abbrev pub IsKeyed : List Counter → Type 0
IsKeyed [] = Unit
IsKeyed (c ∷ counters) = (row_of counters c.key ≡ none) × IsKeyed counters

-- What a deletion of expired rows may make of the row of a key.
abbrev Deleted : (now : ℕ) (old new : Option Counter) → Type 0
Deleted now old new =
    (new ≡ old) ⊎ ((new ≡ none) × (c : Counter) × (old ≡ some c) × (c.expire_at ≤ now))

Deleted-trans :
    (now : ℕ) (a b c : Option Counter) → Deleted now a b → Deleted now b c → Deleted now a c
Deleted-trans now a b c f (inl same) = subst (Deleted now a) (sym same) f
Deleted-trans now a b c (inl same) (inr (gone, x, at, over)) = inr (gone, x, sym same ∙ at, over)
Deleted-trans now a b c (inr (none_left, y, from, late)) (inr (gone, x, at, over)) =
    inr (gone, y, from, late)

row_of-filter-none :
    (test : Counter → Bool) (counters : List Counter) (key : String)
    → row_of counters key ≡ none
    → row_of (filter test counters) key ≡ none
row_of-filter-none test [] key h = refl
row_of-filter-none test (c ∷ counters) key h =
    let rest = row_of-filter-none test counters key in
    elim (Bool-cases (test c)) [ inl stays ↦ ground arith | inr goes ↦ ground arith ]

filter-IsKeyed :
    (test : Counter → Bool) (counters : List Counter)
    → IsKeyed counters
    → IsKeyed (filter test counters)
filter-IsKeyed test [] h = tt
filter-IsKeyed test (c ∷ counters) (fresh, h) = elim (Bool-cases (test c)) [
  | inl stays ↦
      rw stays (row_of-filter-none test counters c.key fresh, filter-IsKeyed test counters h)
  | inr goes ↦ rw goes (filter-IsKeyed test counters h)
]

delete_batch-Deleted :
    (taken : Counter → Bool) (now : ℕ) (counters : List Counter) (key : String)
    → IsKeyed counters
    → Deleted now (row_of counters key) (row_of (delete_batch taken now counters) key)
unfolding delete_batch
delete_batch-Deleted taken now [] key h = inl refl
delete_batch-Deleted taken now (c ∷ counters) key (fresh, h) =
    let rest = delete_batch-Deleted taken now counters key h in
    elim (Bool-cases (leb c.expire_at now && taken c)) [
      | inl goes ↦ elim (Bool-cases (str_eq c.key key)) [
        | inr elsewhere ↦ rw (goes, elsewhere) rest
        | inl here ↦
            let named : c.key ≡ key = (eq_iff c.key key).0 here in
            let last =
              row_of-filter-none (λ r. not (leb r.expire_at now && taken r)) counters key
                (subst (λ k. row_of counters k ≡ none) named fresh) in
            rw (goes, here) (inr (last, c, refl, ground arith))
      ]
      | inr stays ↦ elim (Bool-cases (str_eq c.key key)) [
        | inr elsewhere ↦ rw (stays, elsewhere) rest
        | inl here ↦ rw (stays, here) (inl refl)
      ]
    ]

purge_batches-Deleted :
    (batches : ℕ) (taken : ℕ → Counter → Bool) (now deleted : ℕ) (counters : List Counter)
    (key : String)
    → IsKeyed counters
    → Deleted now
        (row_of counters key)
        (row_of (purge_batches batches taken now deleted counters).0 key)
unfolding purge_batches
purge_batches-Deleted zero taken now deleted counters key h = inl refl
purge_batches-Deleted (suc batches) taken now deleted counters key h =
    let left = delete_batch (taken batches) now counters in
    let once = delete_batch-Deleted (taken batches) now counters key h in
    let rest =
      purge_batches-Deleted batches taken now (deleted + (length counters - length left)) left key
        (delete_batch-IsKeyed batches h) in
    elim (Bool-cases (ltb (length counters - length left) cleanup_batch_size)) [
      | inl last ↦ rw last once
      | inr more ↦ rw more (Deleted-trans now _ _ _ once rest)
    ]
  where
    delete_batch-IsKeyed :
        (n : ℕ) → IsKeyed counters → IsKeyed (delete_batch (taken n) now counters)
    delete_batch-IsKeyed n keyed = filter-IsKeyed _ counters keyed

throttler_record-Deleted :
    (limits : Limits) (now later : ℕ) (key : String) (old new : Option Counter)
    → now ≤ later
    → Deleted now old new
    → throttler_record limits later (hit_row limits later key new)
      ≡ throttler_record limits later (hit_row limits later key old)
unfolding first_hit next_hit
throttler_record-Deleted limits now later key old new after (inl same) =
    ap (λ o. throttler_record limits later (hit_row limits later key o)) same
throttler_record-Deleted limits now later key old new after (inr (gone, c, at, over)) =
    let late : leb c.expire_at later ≡ true = ground arith in rw (gone, at, late) refl

-- A later hit gets the same answer whether or not expired counters were purged before, whatever rows
-- the batches leave out.
pub count_hit-purge_expired :
    (taken : ℕ → Counter → Bool) (now later : ℕ) (counters : List Counter) (key : String)
    (limits : Limits)
    → IsKeyed counters
    → now ≤ later
    → (count_hit (purge_expired taken now counters).0 key limits later).1
      ≡ (count_hit counters key limits later).1
unfolding count_hit purge_expired
count_hit-purge_expired taken now later counters key limits keyed after =
    let left = (purge_batches cleanup_max_batches taken now 0 counters).0 in
    ap (throttler_record limits later) (upsert_counter-eq-hit_row left key limits later)
    ∙ throttler_record-Deleted limits now later key (row_of counters key) (row_of left key) after
        (purge_batches-Deleted cleanup_max_batches taken now 0 counters key keyed)
    ∙ sym (ap (throttler_record limits later) (upsert_counter-eq-hit_row counters key limits later))
