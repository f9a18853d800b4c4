-- ===== src/Prediction/Resolution/Schedule.antt =====
-- The published terms of a resolution, said without the program's tests: who may propose, when, and
-- with what evidence (the doc comments of programs/tidebook/src/instructions/prediction_resolution.rs).
use tidebook.Base.{
  ℕ, ◌≤◌, ◌≡◌, ◌≢◌, refl, sym, ◌⊎◌, inl, inr, List, [], ◌∷◌, ◌++◌, Option, none, some, true, ◌==◌,
  Option-cases, Bool-cases, ok, arith,
}
use tidebook.Base.Int.{ℤ, pos, ◌+ℤ◌, ◌≤ℤ◌, ◌<ℤ◌, i64_max}
use tidebook.State.{
  Pubkey, Account, Runtime, AdminStatus, admin_seed, key_seed, PredictionMarket, PredictionFallback,
  PredictionResolutionPhase,
}
use tidebook.Prediction.Resolution.{
  primary_resolver, fallback_resolver, expected_resolver, resolver_window, check_resolver,
}
use tidebook.Prediction.Resolution.Calls.{Signer}
use tidebook.Prediction.Resolution.Evidence.{
  length, is_nonempty, strip_prefix, all_graphic, ar_scheme, https_scheme, evidence_is_valid,
}

-- The signer is an administrator in office, by the record at the address derived from their key.
pub record IsAdmin (rt : Runtime) (s : Signer) : Type 0 where
  pub stored :
      rt.create_program_address (admin_seed ∷ key_seed s.key ∷ []) s.admin_record.val.bump
      ≡ some s.admin_record.key
  pub authority : s.admin_record.val.authority ≡ s.key
  pub active : s.admin_record.val.status ≡ AdminStatus.active

-- The window of the fallback resolver.
pub record IsFallbackTime (f : PredictionFallback) (now : ℤ) : Type 0 where
  pub available : f.available_ts ≤ℤ now
  pub before_end : (end : ℤ) → f.deadline_ts ≡ some end → now <ℤ end

-- The resolver whose turn it is, and the window: neither before the close nor before the earliest
-- time that the terms name.
pub record IsTurn (m : PredictionMarket) (resolver : Pubkey) (now : ℤ) : Type 0 where
  pub closed : m.close_ts ≤ℤ now
  pub ripe : (t : ℤ) → m.earliest_resolution_ts ≡ some t → t ≤ℤ now
  pub first_turn :
      m.resolution_phase ≡ PredictionResolutionPhase.primary
      → (resolver ≡ m.resolver)
        × ((f : PredictionFallback) → m.fallback ≡ some f → now <ℤ f.available_ts)
  pub second_turn :
      m.resolution_phase ≡ PredictionResolutionPhase.fallback
      → (f : PredictionFallback) × ((m.fallback ≡ some f)
          × ((resolver ≡ f.resolver) × IsFallbackTime f now))

-- Every byte is visible ASCII.
abbrev pub IsGraphic : List ℕ → Type 0
IsGraphic [] = Unit {0}
IsGraphic (b ∷ s) = (33 ≤ b) × (b ≤ 126) × IsGraphic s

-- At most 200 visible bytes, one of the two schemes and something after it, and a hash.
pub record IsEvidence (uri : List ℕ) (hash : ℕ) : Type 0 where
  pub short : length uri ≤ 200
  pub graphic : IsGraphic uri
  pub addressed :
      (b : ℕ) × ((s : List ℕ) × ((uri ≡ ar_scheme ++ b ∷ s) ⊎ (uri ≡ https_scheme ++ b ∷ s)))
  pub hashed : hash ≢ 0

-- When the stored proposal can no longer be corrected.
abbrev pub matures : PredictionMarket → (proposed_at : ℤ) → ℤ
matures m proposed_at = proposed_at +ℤ pos m.resolution_delay_seconds

-- What makes a call a proposal or a correction that the terms allow.
pub record IsProposal (rt : Runtime) (m : PredictionMarket) (s : Signer) (now : ℤ) (uri : List ℕ)
    (hash : ℕ) : Type 0 where
  pub admin : IsAdmin rt s
  pub turn : IsTurn m s.key now
  pub evidence : IsEvidence uri hash
  pub representable : matures m now ≤ℤ pos i64_max

pub resolver_window-IsTurn :
    (m : PredictionMarket) (resolver : Pubkey) (now : ℤ)
    → resolver_window m resolver now ≡ ok tt
    → IsTurn m resolver now
unfolding resolver_window expected_resolver primary_resolver fallback_resolver
resolver_window-IsTurn m resolver now h = record {
  closed = ground arith;
  ripe = λ t e. ground arith;
  first_turn = λ e. (ground arith, λ f g. ground arith);
  second_turn = λ e. elim (Option-cases m.fallback) [
    | inl g ↦ absurd (ground arith)
    | inr (f, g) ↦ (
      f,
      (g, (ground arith, record { available = ground arith; before_end = λ end k. ground arith })),
    )
  ];
}

all_graphic-IsGraphic : (s : List ℕ) → all_graphic s ≡ true → IsGraphic s
unfolding all_graphic
all_graphic-IsGraphic [] h = tt
all_graphic-IsGraphic (b ∷ s) h =
    (ground arith, ground arith, all_graphic-IsGraphic s (ground arith))

strip_prefix-some : (p s rest : List ℕ) → strip_prefix p s ≡ some rest → s ≡ p ++ rest
unfolding strip_prefix
strip_prefix-some [] s rest h = ground arith
strip_prefix-some (a ∷ p) [] rest h = absurd (ground arith)
strip_prefix-some (a ∷ p) (b ∷ s) rest h = elim (Bool-cases (a == b)) [
  | inl e ↦ ground (arith, strip_prefix-some p s rest (ground arith))
  | inr e ↦ absurd (ground arith)
]

addressed_rest :
    (uri : List ℕ) (o : Option (List ℕ))
    → is_nonempty o ≡ true
    → (b : ℕ) × ((s : List ℕ) × (o ≡ some (b ∷ s)))
addressed_rest uri none h = absurd (ground arith)
addressed_rest uri (some []) h = absurd (ground arith)
addressed_rest uri (some (b ∷ s)) h = (b, (s, refl))

pub evidence_is_valid-IsEvidence :
    (uri : List ℕ) (hash : ℕ) → evidence_is_valid uri hash ≡ true → IsEvidence uri hash
unfolding evidence_is_valid
evidence_is_valid-IsEvidence uri hash h =
    let graphic : all_graphic uri ≡ true = ground arith in
    record {
      short = ground arith;
      graphic = all_graphic-IsGraphic uri graphic;
      addressed = elim (Option-cases (strip_prefix ar_scheme uri)) [
        | inr (rest, e) ↦
            let (b, (s, f)) = addressed_rest uri (some rest) (ground arith) in
            let g : rest ≡ b ∷ s = ground arith in
            (b, (s, inl (strip_prefix-some ar_scheme uri (b ∷ s) (rw (sym g) e))))
        | inl e ↦
            let (b, (s, f)) = addressed_rest uri (strip_prefix https_scheme uri) (ground arith) in
            (b, (s, inr (strip_prefix-some https_scheme uri (b ∷ s) f)))
      ];
      hashed = ground arith;
    }

pub check_resolver-IsAdmin :
    (rt : Runtime) (s : Signer) (market : Account PredictionMarket)
    → check_resolver rt
        (record { resolver = s.key; market = market; admin_record = s.admin_record })
      ≡ ok tt
    → IsAdmin rt s
unfolding check_resolver
check_resolver-IsAdmin rt s market h = ground arith
