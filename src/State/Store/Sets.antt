-- ===== src/State/Store/Sets.antt =====
-- What a set changes in the descriptor and in the cache.
use downloader.Base.{
  ℕ, String, ◌≡◌, refl, ap, Option, none, some, ◌==◌, if◌then◌else◌, Bool-cases, inl, inr, ==_iff,
  subst, sym, ◌⊎◌, arith,
}
use downloader.Cache.{Client, IsStoring, Reply, value, nil, get, write}
use downloader.State.{
  Key, Descriptor, Error, set_descriptor_key, current_block_head, latest_inspected_head_block,
  latest_inspected_archive_block, archive_start_block_number, archive_end_block_number,
}
use downloader.State.Store.{written, Big, IsBig, set, get_state}

-- What the cache says of a number that may be nil.
abbrev pub reply_of : Option ℕ → Reply ℕ
reply_of none = nil
reply_of (some n) = value n

module _ (big : Big) (client : Client) where
  parts :
      (o : Option Error) (d d' : Descriptor) (w : Option String × client.Server)
      (s s' : client.Server)
      → ◌≡◌ {A = Option Error × (Descriptor × client.Server)}
          (elim o [ some e ↦ (some e, (d, s)) | none ↦ written d w ])
          (none, (d', s'))
      → (o ≡ none) × (d ≡ d') × (w ≡ (none, s'))
  parts none d d' (none, t) s s' e = (refl, ap (λ x. x.1.0) e, ap (λ x. (none, x.1.1)) e)
  parts none d d' (some x, t) s s' e = absurd (ground (arith, e))
  parts (some x) d d' w s s' e = absurd (ground (arith, e))

  pub set-parts :
      (key : Key) (n : ℕ) (d d' : Descriptor) (s s' : client.Server)
      → set big client key n d s ≡ (none, (d', s'))
      → ((set_descriptor_key key n d).0 ≡ none)
        × ((set_descriptor_key key n d).1 ≡ d')
        × (client.set_key key (big.bytes n) s ≡ (none, s'))
  unfolding set write
  set-parts key n d d' s s' e =
      parts (set_descriptor_key key n d).0 (set_descriptor_key key n d).1 d'
        (client.set_key key (big.bytes n) s) s s' e

  -- A number that was set without an error is what `Get` returns for its key, and the other keys keep
  -- what they had.
  pub get_state-set :
      (key other : Key) (n : ℕ) (d d' : Descriptor) (s s' : client.Server)
      → IsBig big
      → IsStoring client
      → set big client key n d s ≡ (none, (d', s'))
      → get_state big client other s'
        ≡ (if key == other then value n else get_state big client other s)
  unfolding get_state get
  get_state-set key other n d d' s s' b st e =
      let (o, k, w) = set-parts key n d d' s s' e in
      let found = st.stores key other (big.bytes n) s s' w in
      elim (Bool-cases (key == other)) [
        | inl same ↦ rw (get_state, get, found, same, b.bytes_back n) refl
        | inr differs ↦ rw (get_state, get, found, differs) refl
      ]

  -- The keys that a descriptor takes.
  taken :
      (key : Key) (n : ℕ) (d : Descriptor)
      → (set_descriptor_key key n d).0 ≡ none
      → (key ≡ current_block_head)
        ⊎ ((key ≡ latest_inspected_head_block)
            ⊎ ((key ≡ latest_inspected_archive_block)
                ⊎ ((key ≡ archive_start_block_number) ⊎ (key ≡ archive_end_block_number))))
  unfolding set_descriptor_key
  taken key n d e = elim (Bool-cases (key == current_block_head)) [
    | inl a ↦ inl ((==_iff _ _).0 a)
    | inr a ↦ elim (Bool-cases (key == latest_inspected_head_block)) [
      | inl b ↦ inr (inl ((==_iff _ _).0 b))
      | inr b ↦ elim (Bool-cases (key == latest_inspected_archive_block)) [
        | inl c ↦ inr (inr (inl ((==_iff _ _).0 c)))
        | inr c ↦ elim (Bool-cases (key == archive_start_block_number)) [
          | inl f ↦ inr (inr (inr (inl ((==_iff _ _).0 f))))
          | inr f ↦ elim (Bool-cases (key == archive_end_block_number)) [
            | inl g ↦ inr (inr (inr (inr ((==_iff _ _).0 g))))
            | inr g ↦ absurd (ground (arith, a, b, c, f, g, e))
          ]
        ]
      ]
    ]
  ]

  -- The five numbers after a set of the given key.
  abbrev pub IsPut : Key → ℕ → Descriptor → Descriptor → Type 0
  IsPut key n d d' =
      (reply_of d'.current_block_head_number
        ≡ (if key == current_block_head then value n else reply_of d.current_block_head_number))
      × (reply_of d'.latest_inspected_head_block_number ≡ (
          if key == latest_inspected_head_block
          then value n
          else reply_of d.latest_inspected_head_block_number))
      × (reply_of d'.latest_inspected_archive_block_number ≡ (
          if key == latest_inspected_archive_block
          then value n
          else reply_of d.latest_inspected_archive_block_number))
      × (reply_of d'.start_block_number
          ≡ (if key == archive_start_block_number then value n else reply_of d.start_block_number))
      × (reply_of d'.end_block_number
          ≡ (if key == archive_end_block_number then value n else reply_of d.end_block_number))

  pub set_descriptor_key-IsPut :
      (key : Key) (n : ℕ) (d d' : Descriptor)
      → (set_descriptor_key key n d).0 ≡ none
      → (set_descriptor_key key n d).1 ≡ d'
      → IsPut key n d d'
  unfolding set_descriptor_key
  set_descriptor_key-IsPut key n d d' e put = subst (IsPut key n d) put (elim (taken key n d e) [
    | inl a ↦ at (refl, refl, refl, refl, refl) a
    | inr (inl a) ↦ at (refl, refl, refl, refl, refl) a
    | inr (inr (inl a)) ↦ at (refl, refl, refl, refl, refl) a
    | inr (inr (inr (inl a))) ↦ at (refl, refl, refl, refl, refl) a
    | inr (inr (inr (inr a))) ↦ at (refl, refl, refl, refl, refl) a
  ])
    where
      at :
          {k : Key}
          → IsPut k n d (set_descriptor_key k n d).1
          → key ≡ k
          → IsPut key n d (set_descriptor_key key n d).1
      at h a = subst (λ k. IsPut k n d (set_descriptor_key k n d).1) (sym a) h
