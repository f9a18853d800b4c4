-- ===== src/Spot/Ladder.antt =====
-- The price levels of one side as the program keeps them, level accounts linked both ways by price
-- (`PriceLevel` of programs/tidebook/src/state.rs), and what they stand for, the list of their
-- prices from the best one on.
pub mod Borders
pub mod Remove
use tidebook.Base.{
  ℕ, ◌≡◌, refl, ◌∙◌, List, [], ◌∷◌, Option, none, some, Bool, true, false, Bool-cases, inl, inr,
  ◌==◌, ◌||◌, arith, if◌then◌else◌,
}
use tidebook.State.{OrderSide, bid, ask, has_priority, PriceLevel}

-- The level accounts of one market and side, by price: the address of a level is derived from the
-- market, the side and the price.
abbrev pub Levels : Type 0
Levels = ℕ → Option PriceLevel

unfoldable pub mem : ℕ → List ℕ → Bool
mem q [] = false
mem q (p ∷ ps) = q == p || mem q ps

-- A price goes in before the first one that it has priority over.
unfoldable pub insert_price : OrderSide → ℕ → List ℕ → List ℕ
insert_price side p [] = p ∷ []
insert_price side p (q ∷ qs) =
    let rest = insert_price side p qs in if has_priority side p q then p ∷ q ∷ qs else q ∷ rest

-- One level of the list: its price, its link back and its priority.
pub record Entry (side : OrderSide) (st : Levels) (better : Option ℕ) (p : ℕ) (l : PriceLevel)
    : Type 0 where
  pub stored : st p ≡ some l
  pub priced : l.price ≡ p
  pub back : l.better_price ≡ better
  pub sorted : (b : ℕ) → better ≡ some b → has_priority side b p ≡ true

-- The levels from `here` on are linked one to the next down to the worst.
unfoldable pub IsChain : OrderSide → Levels → (better here : Option ℕ) → List ℕ → Type 0
IsChain side st better here [] = here ≡ none
IsChain side st better here (p ∷ ps) =
    (here ≡ some p)
    × ((l : PriceLevel) × (Entry side st better p l × IsChain side st (some p) l.worse_price ps))

-- All levels of the side stand in one list that starts at the best price.
pub record IsLadder (side : OrderSide) (st : Levels) (best : Option ℕ) (ps : List ℕ) : Type 0 where
  pub chain : IsChain side st none best ps
  pub complete : (q : ℕ) (l : PriceLevel) → st q ≡ some l → mem q ps ≡ true

pub has_priority_trans :
    (side : OrderSide) (a b c : ℕ)
    → has_priority side a b ≡ true
    → has_priority side b c ≡ true
    → has_priority side a c ≡ true
has_priority_trans bid a b c h k = ground arith
has_priority_trans ask a b c h k = ground arith

pub has_priority-asymm :
    (side : OrderSide) (a b : ℕ) → has_priority side a b ≡ true → has_priority side b a ≡ false
has_priority-asymm bid a b h = ground arith
has_priority-asymm ask a b h = ground arith

pub has_priority-ne : (side : OrderSide) (a b : ℕ) → has_priority side a b ≡ true → (a == b) ≡ false
has_priority-ne bid a b h = ground arith
has_priority-ne ask a b h = ground arith

pub has_priority-ne_sym :
    (side : OrderSide) (a b : ℕ) → has_priority side a b ≡ true → (b == a) ≡ false
has_priority-ne_sym bid a b h = ground arith
has_priority-ne_sym ask a b h = ground arith

-- The best price of a chain has priority over all that follow.
pub IsChain-sorted :
    (side : OrderSide) (st : Levels) (p : ℕ) (here : Option ℕ) (qs : List ℕ) (m : ℕ)
    → IsChain side st (some p) here qs
    → mem m qs ≡ true
    → has_priority side p m ≡ true
unfolding IsChain mem
IsChain-sorted side st p here [] m c h = absurd (ground arith)
IsChain-sorted side st p here (q ∷ qs) m (e, (l, (n, more))) h = elim (Bool-cases (m == q)) [
  | inl same ↦ ground (arith, n.sorted p refl)
  | inr differs ↦
      has_priority_trans side p q m (n.sorted p refl)
        (IsChain-sorted side st q l.worse_price qs m more (ground arith))
]

-- Levels behind `w` are linked in every store that agrees on them.
pub IsChain-frame :
    (side : OrderSide) (st st' : Levels) (w : ℕ) (here : Option ℕ) (qs : List ℕ)
    → ((q : ℕ) → has_priority side w q ≡ true → st' q ≡ st q)
    → IsChain side st (some w) here qs
    → IsChain side st' (some w) here qs
unfolding IsChain
IsChain-frame side st st' w here [] f c = c
IsChain-frame side st st' w here (q ∷ qs) f (e, (l, (n, more))) = (
  e,
  (
    l,
    (
      record {
        stored = f q (n.sorted w refl) ∙ n.stored;
        priced = n.priced;
        back = n.back;
        sorted = n.sorted;
      },
      IsChain-frame side st st' q l.worse_price qs
          (λ q' k. f q' (has_priority_trans side w q q' (n.sorted w refl) k)) more,
    ),
  ),
)

pub mem-insert_price :
    (side : OrderSide) (p q : ℕ) (ps : List ℕ)
    → mem q ps ≡ true
    → mem q (insert_price side p ps) ≡ true
unfolding mem insert_price
mem-insert_price side p q [] h = absurd (ground arith)
mem-insert_price side p q (x ∷ xs) h = ground (arith, mem-insert_price side p q xs)

pub mem-insert_price_same :
    (side : OrderSide) (p : ℕ) (ps : List ℕ) → mem p (insert_price side p ps) ≡ true
unfolding mem insert_price
mem-insert_price_same side p [] = ground arith
mem-insert_price_same side p (x ∷ xs) = ground (arith, mem-insert_price_same side p xs)
