-- ===== src/State/Store/Recovery.antt =====
-- The cache and the descriptor: what is set is what a new process loads.
use downloader.Base.{
  ℕ, ◌≡◌, refl, ap, subst, ◌∙◌, Option, none, some, ◌==◌, if◌then◌else◌, sym, arith,
}
use downloader.Cache.{Client, IsStoring, Reply, value, nil, failure}
use downloader.State.{
  Key, Descriptor, Error, cache_failed, descriptor, current_block_head, latest_inspected_head_block,
  latest_inspected_archive_block, archive_start_block_number, archive_end_block_number,
}
use downloader.State.Store.{
  load_key, load_end, load_start, load_archive, load_latest, Big, IsBig, set, get_state, load,
}
use downloader.State.Store.Sets.{reply_of, set-parts, set_descriptor_key-IsPut, get_state-set}

abbrev pub fresh : Descriptor
fresh = record {
  current_block_head_number = none;
  latest_inspected_head_block_number = none;
  latest_inspected_archive_block_number = none;
  start_block_number = none;
  end_block_number = none;
  percentage_completed = none;
}

module _ (big : Big) (client : Client) where
  -- The cache has the numbers of the descriptor.
  pub record IsSynced (d : Descriptor) (s : client.Server) : Type 0 where
    pub current_head :
        get_state big client current_block_head s ≡ reply_of d.current_block_head_number
    pub latest_head :
        get_state big client latest_inspected_head_block s
        ≡ reply_of d.latest_inspected_head_block_number
    pub latest_archive :
        get_state big client latest_inspected_archive_block s
        ≡ reply_of d.latest_inspected_archive_block_number
    pub archive_start :
        get_state big client archive_start_block_number s ≡ reply_of d.start_block_number
    pub archive_end : get_state big client archive_end_block_number s ≡ reply_of d.end_block_number

  -- What a process does to its descriptor and the cache: it loads what the cache holds, whichever
  -- process left it there, sets numbers without an error, and reports its progress.
  pub data Reaches : Descriptor → client.Server → Type 0 where
    starts :
        {d : Descriptor} {s : client.Server} → load big client fresh s ≡ (none, d) → Reaches d s
    sets :
        {d d' : Descriptor} {s s' : client.Server} (key : Key) (n : ℕ)
        → Reaches d s
        → set big client key n d s ≡ (none, (d', s'))
        → Reaches d' s'
    reports : {d : Descriptor} {s : client.Server} → Reaches d s → Reaches (descriptor d) s

  set-IsSynced :
      (key : Key) (n : ℕ) (d d' : Descriptor) (s s' : client.Server)
      → IsBig big
      → IsStoring client
      → IsSynced d s
      → set big client key n d s ≡ (none, (d', s'))
      → IsSynced d' s'
  set-IsSynced key n d d' s s' b st v e =
      let (o, k, w) = set-parts big client key n d d' s s' e in
      let (a1, a2, a3, a4, a5) = set_descriptor_key-IsPut big client key n d d' o k in
      record {
        current_head = follows current_block_head v.current_head ∙ sym a1;
        latest_head = follows latest_inspected_head_block v.latest_head ∙ sym a2;
        latest_archive = follows latest_inspected_archive_block v.latest_archive ∙ sym a3;
        archive_start = follows archive_start_block_number v.archive_start ∙ sym a4;
        archive_end = follows archive_end_block_number v.archive_end ∙ sym a5;
      }
    where
      follows :
          (other : Key) {r : Reply ℕ}
          → get_state big client other s ≡ r
          → get_state big client other s' ≡ (if key == other then value n else r)
      follows other h =
          get_state-set big client key other n d d' s s' b st e
          ∙ ap (λ r. if key == other then value n else r) h

  descriptor-IsSynced :
      (d : Descriptor) (s : client.Server) → IsSynced d s → IsSynced (descriptor d) s
  unfolding descriptor
  descriptor-IsSynced d s v = record {
    current_head = ground (arith, v.current_head);
    latest_head = ground (arith, v.latest_head);
    latest_archive = ground (arith, v.latest_archive);
    archive_start = ground (arith, v.archive_start);
    archive_end = ground (arith, v.archive_end);
  }

  -- A load that goes on with an answer of the cache.
  abbrev After :
      Key
      → (Descriptor → Option ℕ → Descriptor)
      → (client.Server → Descriptor → Option Error × Descriptor)
      → client.Server
      → Descriptor
      → Descriptor
      → Reply ℕ
      → Type 0
  After key put next s d d' r =
      ◌≡◌ {A = Option Error × Descriptor}
        (elim r [
          | value n ↦ next s (put d (some n))
          | nil ↦ next s (put d none)
          | failure e ↦ (some (cache_failed e), d)
        ])
        (none, d')

  -- A key that was loaded without an error, and what it was.
  load_key-parts :
      (key : Key) (put : Descriptor → Option ℕ → Descriptor)
      (next : client.Server → Descriptor → Option Error × Descriptor) (s : client.Server)
      (d d' : Descriptor) (r : Reply ℕ)
      → get_state big client key s ≡ r
      → load_key big client key put next s d ≡ (none, d')
      → (o : Option ℕ) × (get_state big client key s ≡ reply_of o) × (next s (put d o) ≡ (none, d'))
  load_key-parts key put next s d d' (value n) h e =
      (some n, h, subst (After key put next s d d') h e)
  load_key-parts key put next s d d' nil h e = (none, h, subst (After key put next s d d') h e)
  load_key-parts key put next s d d' (failure x) h e =
      absurd (ground (arith, subst (After key put next s d d') h e))

  -- What a process loads without an error is what the cache has.
  load-IsSynced :
      (d : Descriptor) (s : client.Server) → load big client fresh s ≡ (none, d) → IsSynced d s
  unfolding load
  load-IsSynced d s e =
      let at = λ (key : Key). get_state big client key s in
      let (o1, h1, e1) =
        load_key-parts current_block_head (λ d n. record d { current_block_head_number = n })
          (load_latest big client) s fresh d (at current_block_head) refl e in
      let (o2, h2, e2) =
        load_key-parts latest_inspected_head_block
          (λ d n. record d { latest_inspected_head_block_number = n }) (load_archive big client) s _
          d (at latest_inspected_head_block) refl e1 in
      let (o3, h3, e3) =
        load_key-parts latest_inspected_archive_block
          (λ d n. record d { latest_inspected_archive_block_number = n }) (load_start big client) s
          _ d (at latest_inspected_archive_block) refl e2 in
      let (o4, h4, e4) =
        load_key-parts archive_start_block_number (λ d n. record d { start_block_number = n })
          (load_end big client) s _ d (at archive_start_block_number) refl e3 in
      let (o5, h5, e5) =
        load_key-parts archive_end_block_number (λ d n. record d { end_block_number = n })
          (λ s d. (none, d)) s _ d (at archive_end_block_number) refl e4 in
      let same = ap (λ x. x.1) e5 in
      record {
        current_head = h1 ∙ ap (λ x. reply_of x.current_block_head_number) same;
        latest_head = h2 ∙ ap (λ x. reply_of x.latest_inspected_head_block_number) same;
        latest_archive = h3 ∙ ap (λ x. reply_of x.latest_inspected_archive_block_number) same;
        archive_start = h4 ∙ ap (λ x. reply_of x.start_block_number) same;
        archive_end = h5 ∙ ap (λ x. reply_of x.end_block_number) same;
      }

  -- In every state that a process reaches after it has loaded its state, from a cache that may hold
  -- what other processes have left, the cache has the numbers of its descriptor: where the cache
  -- stores what it is given, `SetBytes` reads what `Bytes` wrote, and the process's calls did not fail.
  pub Reaches-IsSynced :
      (d : Descriptor) (s : client.Server)
      → IsBig big
      → IsStoring client
      → Reaches d s
      → IsSynced d s
  Reaches-IsSynced d s b st (starts e) = load-IsSynced d s e
  Reaches-IsSynced d s b st (sets key n r e) =
      set-IsSynced key n _ d _ s b st (Reaches-IsSynced _ _ b st r) e
  Reaches-IsSynced d s b st (reports r) = descriptor-IsSynced _ s (Reaches-IsSynced _ s b st r)

  loads :
      (key : Key) (o : Option ℕ) (put : Descriptor → Option ℕ → Descriptor)
      (next : client.Server → Descriptor → Option Error × Descriptor) (s : client.Server)
      (d : Descriptor)
      → get_state big client key s ≡ reply_of o
      → load_key big client key put next s d ≡ next s (put d o)
  loads key none put next s d h =
      rw (load_key, load_end, load_start, load_archive, load_latest, h) refl
  loads key (some n) put next s d h =
      rw (load_key, load_end, load_start, load_archive, load_latest, h) refl

  -- A process has loaded its state, from a cache that may hold what others left, and has set numbers
  -- without errors. A new process that loads its state from the cache then gets that descriptor,
  -- without the percentage, and no error: where the cache stores what it is given and `SetBytes` reads
  -- what `Bytes` wrote.
  pub load-Reaches :
      (d : Descriptor) (s : client.Server)
      → IsBig big
      → IsStoring client
      → Reaches d s
      → load big client fresh s ≡ (none, record d { percentage_completed = none })
  unfolding load
  load-Reaches d s b st r =
      let v = Reaches-IsSynced d s b st r in
      let d1 = record fresh { current_block_head_number = d.current_block_head_number } in
      let d2 = record d1 {
        latest_inspected_head_block_number = d.latest_inspected_head_block_number;
      } in
      let d3 = record d2 {
        latest_inspected_archive_block_number = d.latest_inspected_archive_block_number;
      } in
      let d4 = record d3 { start_block_number = d.start_block_number } in
      loads current_block_head d.current_block_head_number
        (λ d n. record d { current_block_head_number = n }) (load_latest big client) s fresh
        v.current_head
      ∙ (loads latest_inspected_head_block d.latest_inspected_head_block_number
            (λ d n. record d { latest_inspected_head_block_number = n }) (load_archive big client) s
            d1 v.latest_head
          ∙ (loads latest_inspected_archive_block d.latest_inspected_archive_block_number
                (λ d n. record d { latest_inspected_archive_block_number = n })
                (load_start big client) s d2 v.latest_archive
              ∙ (loads archive_start_block_number d.start_block_number
                    (λ d n. record d { start_block_number = n }) (load_end big client) s d3
                    v.archive_start
                  ∙ loads archive_end_block_number d.end_block_number
                      (λ d n. record d { end_block_number = n }) (λ s d. (none, d)) s d4
                      v.archive_end)))
