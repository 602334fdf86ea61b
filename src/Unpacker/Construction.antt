-- ===== src/Unpacker/Construction.antt =====
-- pkg/unpacker/unpacker.go: the construction of an unpacker from options. A component is a number, and
-- `none` a nil pointer.
use downloader.Base.{
  ℕ, String, ◌≡◌, refl, Bool, true, false, ◌&&◌, Option, none, some, List, [], ◌∷◌, is_some, arith,
}

pub record Unpacker : Type 0 where
  pub pool : Option ℕ
  pub etherscan : Option ℕ
  pub nats : Option ℕ
  pub js : Option ℕ
  pub db : Option ℕ
  pub bind_manager : Option ℕ
  pub state : Option ℕ

-- The functional options.
pub data Setting : Type 0 where
  with_pool with_nats with_bindings_manager with_jet_stream_context : Option ℕ → Setting
  with_ether_scan_provider with_db with_state_manager : Option ℕ → Setting

pub data Made : Type 0 where
  made : Unpacker → Made
  refused : String → Made

-- What an option does; a JetStream context may be nil.
unfoldable pub apply_setting : Setting → Unpacker → Made
apply_setting (with_pool none) u = refused "client pool is nil"
apply_setting (with_pool (some p)) u = made (record u { pool = some p })
apply_setting (with_nats none) u = refused "NATS connection is nil"
apply_setting (with_nats (some p)) u = made (record u { nats = some p })
apply_setting (with_bindings_manager none) u = refused "bindings manager is nil"
apply_setting (with_bindings_manager (some p)) u = made (record u { bind_manager = some p })
apply_setting (with_jet_stream_context p) u = made (record u { js = p })
apply_setting (with_ether_scan_provider none) u = refused "etherscan provider is nil"
apply_setting (with_ether_scan_provider (some p)) u = made (record u { etherscan = some p })
apply_setting (with_db none) u = refused "database is nil"
apply_setting (with_db (some p)) u = made (record u { db = some p })
apply_setting (with_state_manager none) u = refused "state manager cannot be nil"
apply_setting (with_state_manager (some p)) u = made (record u { state = some p })

abbrev pub empty_unpacker : Unpacker
empty_unpacker = record {
  pool = none;
  etherscan = none;
  nats = none;
  js = none;
  db = none;
  bind_manager = none;
  state = none;
}

-- The loop over the options: the first error ends it.
abbrev apply_settings : List Setting → Unpacker → Made
apply_settings [] u = made u
apply_settings (s ∷ settings) u = elim (apply_setting s u) [
  | refused e ↦ refused e
  | made u' ↦ apply_settings settings u'
]

unfoldable pub new_unpacker : List Setting → Made
unfolding apply_setting
new_unpacker settings = apply_settings settings empty_unpacker

-- Whether an option has its component.
abbrev pub is_given : Setting → Bool
is_given (with_pool p) = is_some p
is_given (with_nats p) = is_some p
is_given (with_bindings_manager p) = is_some p
is_given (with_jet_stream_context p) = true
is_given (with_ether_scan_provider p) = is_some p
is_given (with_db p) = is_some p
is_given (with_state_manager p) = is_some p

abbrev pub all_given : List Setting → Bool
all_given [] = true
all_given (s ∷ settings) = is_given s && all_given settings

abbrev pub is_made : Made → Bool
is_made (made u) = true
is_made (refused e) = false

is_made-apply_setting : (s : Setting) (u : Unpacker) → is_made (apply_setting s u) ≡ is_given s
unfolding apply_setting
is_made-apply_setting (with_pool none) u = refl
is_made-apply_setting (with_pool (some p)) u = refl
is_made-apply_setting (with_nats none) u = refl
is_made-apply_setting (with_nats (some p)) u = refl
is_made-apply_setting (with_bindings_manager none) u = refl
is_made-apply_setting (with_bindings_manager (some p)) u = refl
is_made-apply_setting (with_jet_stream_context p) u = refl
is_made-apply_setting (with_ether_scan_provider none) u = refl
is_made-apply_setting (with_ether_scan_provider (some p)) u = refl
is_made-apply_setting (with_db none) u = refl
is_made-apply_setting (with_db (some p)) u = refl
is_made-apply_setting (with_state_manager none) u = refl
is_made-apply_setting (with_state_manager (some p)) u = refl

apply_settings_lem :
    (settings : List Setting) (u : Unpacker)
    → is_made (apply_settings settings u) ≡ all_given settings
apply_settings_lem [] u = refl
apply_settings_lem (s ∷ settings) u =
    go (apply_setting s u) (is_made-apply_setting s u) (λ u'. apply_settings_lem settings u')
  where
    go :
        (m : Made)
        → is_made m ≡ is_given s
        → ((u' : Unpacker) → is_made (apply_settings settings u') ≡ all_given settings)
        → is_made (elim m [ refused e ↦ refused e | made u' ↦ apply_settings settings u' ])
          ≡ (is_given s && all_given settings)
    go (made u') h rest = ground (arith, h, rest u')
    go (refused e) h rest = ground (arith, h)

-- An unpacker is made just when no option but a JetStream context is nil.
pub new_unpacker_lem :
    (settings : List Setting) → is_made (new_unpacker settings) ≡ all_given settings
unfolding new_unpacker
new_unpacker_lem settings = apply_settings_lem settings empty_unpacker
