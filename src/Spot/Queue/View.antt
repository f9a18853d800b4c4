-- ===== src/Spot/Queue/View.antt =====
-- A queue of any kind of order, through a view of its orders as spot orders
-- (programs/tidebook/src/state/shared.rs keeps the same links as state.rs).
use tidebook.Base.{
  ◌≡◌, ap, refl, ◌∙◌, [], ◌∷◌, Option, none, some, is_none, Bool-cases, inl, inr, ◌==◌, arith,
  fun_ext,
}
use tidebook.State.{Pubkey, Account, Order, open_, PriceLevel}
use tidebook.Spot.Match.Steps.{key_of}
use tidebook.Spot.Queue.{Store, put, put-same, link, IsLinked, mem, distinct, length, IsQueue}
use tidebook.Spot.Cancel.Unlinked.{put_order}

abbrev pub viewed : {A B : Type 0} → (A → B) → Option A → Option B
viewed f none = none
viewed f (some a) = some (f a)

abbrev pub view_store : {A B : Type 0} → (A → B) → Store A → Store B
view_store f st k = viewed f (st k)

abbrev pub view_account : {A B : Type 0} → (A → B) → Account A → Account B
view_account f a = record { key = a.key; val = f a.val }

abbrev pub view_neighbor : {A B : Type 0} → (A → B) → Option (Account A) → Option (Account B)
view_neighbor f none = none
view_neighbor f (some a) = some (view_account f a)

-- The write of an optional neighbor.
abbrev pub put_neighbor : {A : Type 0} → Option (Account A) → Store A → Store A
put_neighbor none st = st
put_neighbor (some a) st = put a.key a.val st

-- Writes are seen as writes.
module _ {A B : Type 0} (f : A → B) where
  pub view_store-put :
      (k : Pubkey) (o : A) (st : Store A)
      → view_store f (put k o st) ≡ put k (f o) (view_store f st)
  unfolding put
  view_store-put k o st =
      fun_ext λ q. elim (Bool-cases (q == k)) [ inl same ↦ rw same | inr differs ↦ rw differs ]

  pub view_store-put-put :
      (k j : Pubkey) (o p : A) (st : Store A)
      → view_store f (put k o (put j p st)) ≡ put k (f o) (put j (f p) (view_store f st))
  view_store-put-put k j o p st =
      view_store-put k o (put j p st) ∙ ap (put k (f o)) (view_store-put j p st)

  pub view_store-at :
      (st : Store A) (k : Pubkey) (o : A) → st k ≡ some o → view_store f st k ≡ some (f o)
  view_store-at st k o e = rw e

module _ {A : Type 0} (f : A → Order) where
  pub key_view : (o : Option (Account A)) → key_of (view_neighbor f o) ≡ key_of o
  key_view none = refl
  key_view (some a) = refl

  pub none_view : (o : Option (Account A)) → is_none (view_neighbor f o) ≡ is_none o
  none_view none = refl
  none_view (some a) = refl

  pub put_view :
      (o : Option (Account A)) (st : Store A)
      → view_store f (put_neighbor o st) ≡ put_order (view_neighbor f o) (view_store f st)
  put_view none st = refl
  put_view (some a) st = view_store-put f a.key a.val st

  pub put_views :
      (next previous : Option (Account A)) (k : Pubkey) (o : A) (st : Store A)
      → view_store f (put_neighbor next (put_neighbor previous (put k o st)))
        ≡ put_order
            (view_neighbor f next)
            (put_order (view_neighbor f previous) (put k (f o) (view_store f st)))
  put_views next previous k o st =
      put_view next (put_neighbor previous (put k o st))
      ∙ ap (put_order (view_neighbor f next)) (
          put_view previous (put k o st)
          ∙ ap (put_order (view_neighbor f previous)) (view_store-put f k o st))

  pub stored_view :
      (st : Store A) (o : Option (Account A))
      → ((a : Account A) → o ≡ some a → st a.key ≡ some a.val)
      → (a : Account Order) → view_neighbor f o ≡ some a
      → view_store f st a.key ≡ some a.val
  stored_view st none s a e = absurd (ground arith)
  stored_view st (some b) s a e =
      let same : a ≡ view_account f b = ground arith in
      rw same (view_store-at f st b.key b.val (s b refl))

  pub links_view :
      (x : Pubkey) (o : Option (Account A))
      → ((p : Account A) → o ≡ some p → (f p.val).next_order ≡ some x)
      → (p : Account Order) → view_neighbor f o ≡ some p
      → p.val.next_order ≡ some x
  links_view x none s p e = absurd (ground arith)
  links_view x (some b) s p e = ground (arith, s b refl)

  -- A level that was opened with one order is the queue of this order.
  pub opened-IsQueue :
      (st : Store A) (k : Pubkey) (o : A) (level : Account PriceLevel)
      → ((f o).price_level ≡ level.key)
        × ((f o).status ≡ open_)
        × ((f o).previous_order ≡ none)
        × ((f o).next_order ≡ none)
        × (level.val.first_order ≡ some k)
        × (level.val.last_order ≡ some k)
        × (level.val.total_remaining_quantity ≡ (f o).remaining_quantity)
        × (level.val.order_count ≡ 1)
      → IsQueue (view_store f (put k o st)) level (k ∷ [])
  unfolding IsLinked length distinct mem
  opened-IsQueue st k o level (here, opened, back, ends, first, last, total, one) = record {
    linked =
        link (view_store f (put k o st)) level.key none level.val.first_order level.val.last_order
          level.val.total_remaining_quantity k [] (f o) 0 first
          (record {
            stored = view_store-at f (put k o st) k o (put-same k o st);
            rests_here = here;
            still_open = opened;
            back = back;
          })
          (ground arith) (ends, last, refl);
    counted = one;
    apart = refl;
  }
