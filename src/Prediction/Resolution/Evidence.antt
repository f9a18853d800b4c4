-- ===== src/Prediction/Resolution/Evidence.antt =====
-- The evidence that a proposal carries (programs/tidebook/src/instructions/prediction_resolution.rs,
-- and the limit of programs/tidebook/src/state/prediction.rs).
use tidebook.Base.{
  ℕ, suc, List, [], ◌∷◌, Option, none, some, Bool, true, false, not, ◌&&◌, leb, ◌==◌, if◌then◌else◌,
}

-- `PREDICTION_URI_MAX_LENGTH`.
abbrev pub prediction_uri_max_length : ℕ
prediction_uri_max_length = 200

abbrev pub length : List ℕ → ℕ
length [] = 0
length (x ∷ xs) = suc (length xs)

-- `str::strip_prefix`, on bytes.
unfoldable pub strip_prefix : List ℕ → List ℕ → Option (List ℕ)
strip_prefix [] s = some s
strip_prefix (a ∷ p) [] = none
strip_prefix (a ∷ p) (b ∷ s) = let rest = strip_prefix p s in if a == b then rest else none

-- `u8::is_ascii_graphic`, over the whole text.
unfoldable pub all_graphic : List ℕ → Bool
all_graphic [] = true
all_graphic (b ∷ s) = leb 33 b && (leb b 126 && all_graphic s)

-- The schemes `ar://` and `https://`.
abbrev pub ar_scheme : List ℕ
ar_scheme = b'a' ∷ b'r' ∷ b':' ∷ b'/' ∷ b'/' ∷ []

abbrev pub https_scheme : List ℕ
https_scheme = b'h' ∷ b't' ∷ b't' ∷ b'p' ∷ b's' ∷ b':' ∷ b'/' ∷ b'/' ∷ []

abbrev pub or_else : Option (List ℕ) → Option (List ℕ) → Option (List ℕ)
or_else none b = b
or_else (some a) b = some a

abbrev pub is_nonempty : Option (List ℕ) → Bool
is_nonempty (some (b ∷ s)) = true
is_nonempty _ = false

-- The evidence test of `handle_propose_prediction`.
unfoldable pub evidence_is_valid : List ℕ → ℕ → Bool
unfolding strip_prefix all_graphic
evidence_is_valid uri hash =
    leb (length uri) prediction_uri_max_length
    && (all_graphic uri
        && (is_nonempty (or_else (strip_prefix ar_scheme uri) (strip_prefix https_scheme uri))
            && not (hash == 0)))
