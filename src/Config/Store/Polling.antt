-- ===== src/Config/Store/Polling.antt =====
-- Which document the snapshot comes from, whatever the poller reads.
use ocfp.Prelude.{
  ◌+◌, ℕ, sym, ap, eq_refl, true, if◌then◌else◌, ◌≡◌, refl, ◌∙◌, Option, none, some, List, [], ◌∷◌,
  Bytes, ◌==◌, eq→≡, arith, Bool-cases, inl, inr, subst,
}
use ocfp.Config.Validate.Sets.{All}
use ocfp.Config.Runtime.{Runtime}
use ocfp.Config.Store.{
  Load, LoadError, Store, Outside, load_bytes, swap, accept, tick, poll, started, new_store,
}

-- The snapshot is that of the document, tagged with the store's count, and the hash is the document's.
pub record Shows (o : Outside) (s : Store) (raw : Bytes) : Type 0 where
  pub snapshot : Runtime
  pub loads : load_bytes o raw ≡ Load.loaded snapshot
  pub shown : s.cur ≡ record snapshot { generation = s.gen }
  pub hashed : s.last_hash ≡ o.sha256 raw

abbrev kept_or : Bytes → Bytes → Load Runtime → Bytes
kept_or cur raw (Load.failed e) = cur
kept_or cur raw (Load.loaded rt) = raw

-- 1 for a document that loads
abbrev pub one_if_loaded : Load Runtime → ℕ
one_if_loaded (Load.failed e) = 0
one_if_loaded (Load.loaded rt) = 1

module _ (o : Outside) where
  -- The last text that was read and that loads; `cur` if there is none.
  unfoldable pub latest : Bytes → List (Option Bytes) → Bytes
  latest cur [] = cur
  latest cur (none ∷ reads) = latest cur reads
  latest cur (some raw ∷ reads) = latest (kept_or cur raw (load_bytes o raw)) reads

  -- How many of the texts that are read load and are not the one that was current when they were read.
  unfoldable pub swaps : Bytes → List (Option Bytes) → ℕ
  swaps cur [] = 0
  swaps cur (none ∷ reads) = swaps cur reads
  swaps cur (some raw ∷ reads) =
      (if raw == cur then 0 else one_if_loaded (load_bytes o raw))
      + swaps (kept_or cur raw (load_bytes o raw)) reads

  -- Among the texts, those with the same hash are the same.
  abbrev pub Separates : Bytes → List (Option Bytes) → Type 0
  Separates cur [] = Unit
  Separates cur (none ∷ reads) = Separates cur reads
  Separates cur (some raw ∷ reads) =
      (o.sha256 raw ≡ o.sha256 cur → raw ≡ cur)
      × Separates (kept_or cur raw (load_bytes o raw)) reads

  accept-Shows :
      (s : Store) (cur raw : Bytes) (l : Load Runtime)
      → load_bytes o raw ≡ l
      → Shows o s cur
      → Shows o (accept o s (o.sha256 raw) l) (kept_or cur raw l)
  unfolding accept swap
  accept-Shows s cur raw (Load.failed e) h v = v
  accept-Shows s cur raw (Load.loaded rt) h v = record {
    snapshot = rt;
    loads = h;
    shown = refl;
    hashed = refl;
  }

  kept_same : (cur : Bytes) (l : Load Runtime) → kept_or cur cur l ≡ cur
  kept_same cur (Load.failed e) = refl
  kept_same cur (Load.loaded rt) = refl

  tick-Shows :
      (s : Store) (cur raw : Bytes)
      → (o.sha256 raw ≡ o.sha256 cur → raw ≡ cur)
      → Shows o s cur
      → Shows o (tick o s (some raw)) (kept_or cur raw (load_bytes o raw))
  unfolding tick
  tick-Shows s cur raw same v = elim (Bool-cases (o.sha256 raw == s.last_hash)) [
    | inl e ↦
        let hashes : o.sha256 raw ≡ o.sha256 cur = eq→≡ (o.sha256 raw) s.last_hash e ∙ v.hashed in
        rw e (rw (same hashes, kept_same cur (load_bytes o cur)) v)
    | inr e ↦ rw e (accept-Shows s cur raw (load_bytes o raw) refl v)
  ]

  accept-gen :
      (s : Store) (hash : Bytes) (l : Load Runtime)
      → (accept o s hash l).gen ≡ s.gen + one_if_loaded l
  unfolding accept swap
  accept-gen s hash (Load.failed e) = omega arith
  accept-gen s hash (Load.loaded rt) = refl

  -- A tick swaps exactly if the text loads and is another than the current one.
  tick-gen :
      (s : Store) (cur raw : Bytes)
      → (o.sha256 raw ≡ o.sha256 cur → raw ≡ cur)
      → Shows o s cur
      → (tick o s (some raw)).gen
        ≡ s.gen + (if raw == cur then 0 else one_if_loaded (load_bytes o raw))
  unfolding tick
  tick-gen s cur raw same v = elim (Bool-cases (o.sha256 raw == s.last_hash)) [
    | inl e ↦
        let hashes : o.sha256 raw ≡ o.sha256 cur = eq→≡ (o.sha256 raw) s.last_hash e ∙ v.hashed in
        let unchanged : (raw == cur) ≡ true = rw (same hashes) (eq_refl cur) in
        rw (e, unchanged) (omega arith)
    | inr e ↦ elim (Bool-cases (raw == cur)) [
      | inl f ↦
          let hashes : o.sha256 raw ≡ s.last_hash = ap o.sha256 (eq→≡ raw cur f) ∙ sym v.hashed in
          let equal : (o.sha256 raw == s.last_hash) ≡ true = rw hashes (eq_refl s.last_hash) in
          cc (e, equal)
      | inr f ↦ rw (e, f) (accept-gen s (o.sha256 raw) (load_bytes o raw))
    ]
  ]

  poll-Shows :
      (s : Store) (cur : Bytes) (reads : List (Option Bytes))
      → Shows o s cur
      → Separates cur reads
      → Shows o (poll o s reads) (latest cur reads)
        × ((poll o s reads).gen ≡ s.gen + swaps cur reads)
  unfolding poll latest swaps tick
  poll-Shows s cur [] v h = (v, omega arith)
  poll-Shows s cur (none ∷ reads) v h = poll-Shows s cur reads v h
  poll-Shows s cur (some raw ∷ reads) v h =
      let next = tick o s (some raw) in
      let (shown, grows) =
        poll-Shows next (kept_or cur raw (load_bytes o raw)) reads (tick-Shows s cur raw h.0 v)
          h.1 in
      (shown, omega (arith, grows, tick-gen s cur raw h.0 v))

  started-Shows :
      (raw : Bytes) (l : Load Runtime) {s : Store}
      → load_bytes o raw ≡ l
      → started o (o.sha256 raw) l ≡ Load.loaded s
      → Shows o s raw × (s.gen ≡ 1)
  unfolding started
  started-Shows raw (Load.failed e) h g = cc
  started-Shows raw (Load.loaded rt) {s} h g =
      let built : Store = record {
        cur = record rt { generation = 1 };
        gen = 1;
        last_hash = o.sha256 raw;
        level = none;
      } in
      let same : built ≡ s = cc in
      subst (λ (t : Store). Shows o t raw × (t.gen ≡ 1)) same
        (record { snapshot = rt; loads = h; shown = refl; hashed = refl }, refl)

  new_store-Shows :
      (raw : Bytes) {s : Store}
      → new_store o (some raw) ≡ Load.loaded s
      → Shows o s raw × (s.gen ≡ 1)
  unfolding new_store
  new_store-Shows raw h = started-Shows raw (load_bytes o raw) refl h

  -- A store that started from a text, then polled any sequence of reads, failed ones and texts that do
  -- not load among them: if the texts that share a hash with the current one are the same, it shows the
  -- snapshot of the last text that loads, and the snapshot's generation is 1 and the count of the texts read
  -- that load and are another than the one current then.
  pub poll-latest :
      (raw : Bytes) (reads : List (Option Bytes)) {s : Store}
      → new_store o (some raw) ≡ Load.loaded s
      → Separates raw reads
      → Shows o (poll o s reads) (latest raw reads) × ((poll o s reads).gen ≡ 1 + swaps raw reads)
  poll-latest raw reads {s} h sep =
      let (shown, first) = new_store-Shows raw h in
      let (later, grows) = poll-Shows s raw reads shown sep in (later, omega (arith, grows, first))

  abbrev pub Fails : Option Bytes → Type 0
  Fails none = Unit
  Fails (some raw) = (e : LoadError) × (load_bytes o raw ≡ Load.failed e)

  tick-Fails : (s : Store) (read : Option Bytes) → Fails read → tick o s read ≡ s
  unfolding tick accept
  tick-Fails s none h = refl
  tick-Fails s (some raw) (e, h) = rw h (ground arith)

  -- Reads that fail and texts that do not load leave the store exactly as it was.
  pub poll-Fails : (s : Store) (reads : List (Option Bytes)) → All Fails reads → poll o s reads ≡ s
  unfolding poll
  poll-Fails s [] h = refl
  poll-Fails s (read ∷ reads) (h, hs) = rw (tick-Fails s read h) (poll-Fails s reads hs)
