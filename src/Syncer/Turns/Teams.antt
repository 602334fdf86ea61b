-- ===== src/Syncer/Turns/Teams.antt =====
-- The goroutines in their phases: what turns make of them, and of the rows of other contracts.
use downloader.Base.{
  ℕ, zero, suc, ◌+◌, ◌-◌, ◌≡◌, refl, subst, ◌∙◌, Bool, false, ◌&&◌, nat_eq, ◌==◌, ==_iff, String,
  List, [], ◌∷◌, Returns, returns, Returns-bind, Returns-mono, if◌then◌else◌, arith,
}
use downloader.Models.{Row, Codec}
use downloader.Models.Table.{Table, first}
use downloader.Unpacker.Library.{Solgo, Store, Config}
use downloader.Unpacker.Flow.{IsCalm}
use downloader.Storage.{table_store}
use downloader.Storage.Kept.{IsWriting}
use downloader.Syncer.Turns.{Thread, Threads, turn, turn_at, turns}
use downloader.Syncer.Turns.Phases.{Key, index, Misses, Spares, Phase, Phase-first}
use downloader.Syncer.Turns.Moves.{Turned, turn-Turned}

-- How often a position has its turn.
abbrev pub count : ℕ → List ℕ → ℕ
count i [] = 0
count i (x ∷ xs) = (if nat_eq x i then 1 else 0) + count i xs

-- The rounds that are left after a turn, and after a schedule.
abbrev pub tick : ℕ → (ℕ → ℕ) → ℕ → ℕ
tick i c m = c m - (if nat_eq i m then 1 else 0)

abbrev pub left_after : List ℕ → (ℕ → ℕ) → ℕ → ℕ
left_after [] c = c
left_after (i ∷ schedule) c = left_after schedule (tick i c)

pub left_after-count :
    (schedule : List ℕ) (c : ℕ → ℕ) (m : ℕ) → left_after schedule c m ≡ c m - count m schedule
left_after-count [] c m = omega arith
left_after-count (i ∷ schedule) c m = omega (arith, left_after-count schedule (tick i c) m)

tick-suc : (i : ℕ) (c : ℕ → ℕ) (m : ℕ) → tick i (λ n. c (suc n)) m ≡ tick (suc i) c (suc m)
tick-suc i c m = ground arith

module _ (k : Codec) (violation : String) where
  abbrev pub W : Store
  W = table_store k violation

  -- Two contracts that the unique index tells apart.
  abbrev pub same_key : Key → Key → Bool
  same_key a b =
      nat_eq (k.uint64 a.network_id) (k.uint64 b.network_id)
      && (nat_eq (k.uint64 a.header.number) (k.uint64 b.header.number)
          && k.address_hex a.addr == k.address_hex b.addr)

  abbrev pub IsApart : Key → List Key → Type 0
  IsApart key [] = Unit
  IsApart key (other ∷ keys) = (same_key key other ≡ false) × IsApart key keys

  abbrev pub AreApart : List Key → Type 0
  AreApart [] = Unit
  AreApart (key ∷ keys) = IsApart key keys × AreApart keys

  Misses-other :
      (key other : Key)
      → same_key key other ≡ false
      → Misses k violation (index k violation key) other
        × Misses k violation (index k violation other) key
  Misses-other key other e = (
    λ r h. ground (
      arith,
      ==_iff r.address (k.address_hex key.addr),
      ==_iff r.address (k.address_hex other.addr),
      ==_iff (k.address_hex key.addr) (k.address_hex other.addr),
    ),
    λ r h. ground (
      arith,
      ==_iff r.address (k.address_hex key.addr),
      ==_iff r.address (k.address_hex other.addr),
      ==_iff (k.address_hex key.addr) (k.address_hex other.addr),
    ),
  )

  -- The condition holds of no row of these contracts.
  abbrev pub MissesAll : (Row → Bool) → List Key → Type 0
  MissesAll q [] = Unit
  MissesAll q (key ∷ keys) = Misses k violation q key × MissesAll q keys

  MissesAll-apart :
      (key : Key) (keys : List Key) → IsApart key keys → MissesAll (index k violation key) keys
  MissesAll-apart key [] h = tt
  MissesAll-apart key (other ∷ keys) (e, h) =
      ((Misses-other key other e).0, MissesAll-apart key keys h)

  module _ (S : Solgo) (cfg : Config) where
    -- Every goroutine is in its phase, the number of its rounds given by its position.
    abbrev pub Team : Table → (ℕ → ℕ) → List Key → List (Thread S W cfg) → Type 0
    Team t c [] [] = Unit
    Team t c (key ∷ keys) (th ∷ ths) =
        Phase k violation S cfg key t (c 0) th × Team t (λ i. c (suc i)) keys ths
    Team t c [] (th ∷ ths) = ⊥
    Team t c (key ∷ keys) [] = ⊥

    Team-Spares :
        (other : Key) (t t' : Table) (c : ℕ → ℕ) (keys : List Key) (ths : List (Thread S W cfg))
        → IsApart other keys
        → Spares k violation other t t'
        → Team t c keys ths
        → Team t' c keys ths
    Team-Spares other t t' c [] [] a s h = tt
    Team-Spares other t t' c [] (th ∷ ths) a s h = h
    Team-Spares other t t' c (key ∷ keys) [] a s h = h
    Team-Spares other t t' c (key ∷ keys) (th ∷ ths) (e, a) s (p, h) = (
      Phase-first k violation S cfg key t t' (c 0) th
          (s (index k violation key) (Misses-other other key e).1) p,
      Team-Spares other t t' (λ i. c (suc i)) keys ths a s h,
    )

    Team-ext :
        (t : Table) (c c' : ℕ → ℕ) (keys : List Key) (ths : List (Thread S W cfg))
        → ((i : ℕ) → c i ≡ c' i)
        → Team t c keys ths
        → Team t c' keys ths
    Team-ext t c c' [] [] e h = tt
    Team-ext t c c' [] (th ∷ ths) e h = h
    Team-ext t c c' (key ∷ keys) [] e h = h
    Team-ext t c c' (key ∷ keys) (th ∷ ths) e (p, h) = (
      subst (λ (n : ℕ). Phase k violation S cfg key t n th) (e 0) p,
      Team-ext t (λ i. c (suc i)) (λ i. c' (suc i)) keys ths (λ i. e (suc i)) h,
    )

    module _ (calm : IsCalm S) (writes : IsWriting k) where
      -- After a turn the goroutines are in their phases, and only rows of theirs have changed.
      abbrev pub Kept : Table → (ℕ → ℕ) → List Key → Threads S W cfg → Type 0
      Kept t c keys (ths, t', files) =
          Team t' c keys ths
          × ((q : Row → Bool) → MissesAll q keys → first q t'.rows ≡ first q t.rows)

      turn_at-Kept :
          (i : ℕ) (keys : List Key) (t : Table) (files : S.Files) (c : ℕ → ℕ)
          (ths : List (Thread S W cfg))
          → AreApart keys
          → Team t c keys ths
          → Returns (Kept t (tick i c) keys) (turn_at S W cfg i ths t files)
      unfolding turn_at
      turn_at-Kept i [] t files c [] a h = returns (tt, λ q m. refl)
      turn_at-Kept i [] t files c (th ∷ ths) a h = absurd h
      turn_at-Kept i (key ∷ keys) t files c [] a h = absurd h
      turn_at-Kept zero (key ∷ keys) t files c (th ∷ ths) (apart, a) (p, h) =
          Returns-bind (Turned k violation S cfg calm writes key t (c 0))
            (Kept t (tick zero c) (key ∷ keys)) (turn S W cfg th t files) _
            (turn-Turned k violation S cfg calm writes key t files (c 0) th p)
            λ (th', t', files') (p', spares). returns (
              (
                subst (λ (n : ℕ). Phase k violation S cfg key t' n th') (ground arith) p',
                Team-ext t' (λ i. c (suc i)) (λ i. tick zero c (suc i)) keys ths (λ i. ground arith)
                    (Team-Spares key t t' (λ i. c (suc i)) keys ths apart spares h),
              ),
              λ q m. spares q m.0,
            )
      turn_at-Kept (suc i) (key ∷ keys) t files c (th ∷ ths) (apart, a) (p, h) =
          Returns-bind (Kept t (tick i (λ i. c (suc i))) keys)
            (Kept t (tick (suc i) c) (key ∷ keys)) (turn_at S W cfg i ths t files) _
            (turn_at-Kept i keys t files (λ i. c (suc i)) ths a h)
            λ (ths', t', files') (h', spares). returns (
              (
                Phase-first k violation S cfg key t t' (tick (suc i) c 0) th
                    (spares (index k violation key) (MissesAll-apart key keys apart))
                    (subst (λ (n : ℕ). Phase k violation S cfg key t n th) (ground arith) p),
                Team-ext t' (tick i (λ i. c (suc i))) (λ m. tick (suc i) c (suc m)) keys ths'
                    (λ m. tick-suc i c m) h',
              ),
              λ q m. spares q m.1,
            )

      pub turns-Kept :
          (schedule : List ℕ) (keys : List Key) (t : Table) (files : S.Files) (c : ℕ → ℕ)
          (ths : List (Thread S W cfg))
          → AreApart keys
          → Team t c keys ths
          → Returns (Kept t (left_after schedule c) keys) (turns S W cfg schedule ths t files)
      unfolding turns
      turns-Kept [] keys t files c ths a h = returns (h, λ q m. refl)
      turns-Kept (i ∷ schedule) keys t files c ths a h =
          Returns-bind (Kept t (tick i c) keys) (Kept t (left_after schedule (tick i c)) keys)
            (turn_at S W cfg i ths t files) _ (turn_at-Kept i keys t files c ths a h)
            λ (ths', t', files') (h', spares).
              Returns-mono (Kept t' (left_after schedule (tick i c)) keys)
                (Kept t (left_after schedule (tick i c)) keys)
                (turns S W cfg schedule ths' t' files')
                (λ x kept. (kept.0, λ q m. kept.1 q m ∙ spares q m))
                (turns-Kept schedule keys t' files' (tick i c) ths' a h')
