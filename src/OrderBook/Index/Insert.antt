-- ===== src/OrderBook/Index/Insert.antt =====
-- A new order in the book keeps the index.
use fix4_2_protocol.Base.{
  ℕ, Str, ◌==◌, str_eq, str_eq_iff, Bool, true, false, ◌≡◌, ◌⊎◌, inl, inr, refl, none, some, List,
  [], ◌∷◌, ◌++◌, append_assoc, arith, if◌then◌else◌, Bool-cases,
}
use fix4_2_protocol.OrderBook.{Node, Level, Book, OrderIdMap, OrderIdInfo}
use fix4_2_protocol.OrderBook.Store.{find, find-append, order_at, deref, push_back}
use fix4_2_protocol.OrderBook.Index.{level_index, index, Distinct, LevelApart, Away, BookApart}
use fix4_2_protocol.OrderBook.Index.Address.{order_at_cons, order_at_join, deref_cons, deref_join}
use fix4_2_protocol.OrderBook.Index.Run.{level_index_append}
use fix4_2_protocol.OrderBook.Index.Sweep.{split-Distinct, join-Distinct, Disjoint}

module _ {F : Type 0} (before : F → F → Bool)
    (connex : (a b : F) → before a b ≡ false → before b a ≡ false → a ≡ b) (p : F)
    (n : Node F) where
  abbrev pub entry : OrderIdInfo F
  entry = record { node = n.addr; price = p }

  -- The three places where a node may go.
  pub push_cases :
      (l : Level F) (b : Book F)
      → ((push_back before p n (l ∷ b) ≡ l ∷ push_back before p n b) × (before l.price p ≡ true))
        ⊎ ((push_back before p n (l ∷ b) ≡ record { price = p; orders = n ∷ [] } ∷ l ∷ b)
            × (before p l.price ≡ true))
        ⊎ ((push_back before p n (l ∷ b) ≡ record { price = p; orders = l.orders ++ n ∷ [] } ∷ b)
            × (l.price ≡ p))
  unfolding push_back
  push_cases l b = elim (Bool-cases (before l.price p)) [
    | inl e ↦ inl (rw e, e)
    | inr e ↦ elim (Bool-cases (before p l.price)) [
      | inl f ↦ inr (inl (rw (e, f), f))
      | inr f ↦ inr (inr (rw (e, f, connex l.price p e f) refl, connex l.price p e f))
    ]
  ]

  abbrev pub Absent : Book F → Type 0
  Absent b = find n.order.order_id (index b) ≡ none

  Absent-parts :
      (l : Level F) (b : Book F)
      → Absent (l ∷ b)
      → (find n.order.order_id (level_index l.price l.orders) ≡ none) × Absent b
  Absent-parts l b h =
      ground (arith, find-append n.order.order_id (level_index l.price l.orders) (index b))

  -- The new entry is found, and every other key as before.
  pub find-push_back :
      (k : Str) (b : Book F)
      → Absent b
      → find k (index (push_back before p n b))
        ≡ (if str_eq n.order.order_id k then some entry else find k (index b))
  unfolding find push_back
  find-push_back k [] h = refl
  find-push_back k (l ∷ b) h =
      let (hl, hb) = Absent-parts l b h in
      let lev = level_index l.price l.orders in
      let one : OrderIdMap F = (n.order.order_id, record { node = n.addr; price = p }) ∷ [] in
      let ih = find-push_back k b hb in
      elim (push_cases l b) [
        | inl (e, _) ↦ rw e (
            ground (
              arith,
              ih,
              find-append k lev (index (push_back before p n b)),
              find-append k lev (index b),
              str_eq_iff n.order.order_id k,
              hl,
            ))
        | inr (inl (e, _)) ↦ rw e refl
        | inr (inr (e, same)) ↦
            rw (e, level_index_append p l.orders (n ∷ []), append_assoc)
              (rw (← same) (
                ground (
                  arith,
                  find-append k lev (one ++ index b),
                  find-append k lev (index b),
                  str_eq_iff n.order.order_id k,
                  hl,
                )))
      ]

  add-Disjoint :
      (e f : OrderIdMap F) (v : OrderIdInfo F)
      → Disjoint e f
      → find n.order.order_id e ≡ none
      → Disjoint e ((n.order.order_id, v) ∷ f)
  unfolding find
  add-Disjoint e f v apart h k present = ground (arith, apart k, str_eq_iff n.order.order_id k)

  pub push_back-Distinct :
      (b : Book F) → Absent b → Distinct (index b) → Distinct (index (push_back before p n b))
  unfolding find push_back
  push_back-Distinct [] h d = (refl, tt)
  push_back-Distinct (l ∷ b) h d =
      let (hl, hb) = Absent-parts l b h in
      let lev = level_index l.price l.orders in
      let (dl, db, apart) = split-Distinct lev (index b) d in
      elim (push_cases l b) [
        | inl (e, _) ↦ rw e (
            join-Distinct lev (index (push_back before p n b)) (
              dl,
              push_back-Distinct b hb db,
              λ k present.
                  ground (arith, find-push_back k b hb, apart k, str_eq_iff n.order.order_id k),
            ))
        | inr (inl (e, _)) ↦ rw e (h, d)
        | inr (inr (e, same)) ↦
            rw (e, level_index_append p l.orders (n ∷ []), append_assoc)
              (rw (← same) (
                join-Distinct lev
                  ((n.order.order_id, record { node = n.addr; price = l.price }) ∷ index b)
                  (dl, (hb, db), add-Disjoint lev (index b) _ apart hl)))
      ]

  order_at_snoc :
      (a : ℕ) (ns : List (Node F))
      → order_at a ns ≡ none
      → (n.addr == a) ≡ false
      → order_at a (ns ++ n ∷ []) ≡ none
  unfolding order_at
  order_at_snoc a [] h e = rw e
  order_at_snoc a (m ∷ ns) h e =
      let (x, y) = order_at_cons a m ns h in order_at_join a m _ x (order_at_snoc a ns y e)

  pub deref-push_back :
      (a : ℕ) (b : Book F)
      → deref a b ≡ none
      → (n.addr == a) ≡ false
      → deref a (push_back before p n b) ≡ none
  unfolding push_back
  deref-push_back a [] h e =
      deref_join a (record { price = p; orders = n ∷ [] }) []
        (order_at_snoc a [] (unfold order_at in refl) e) h
  deref-push_back a (l ∷ b) h e =
      let (x, y) = deref_cons a l b h in
      let ih = deref-push_back a b y e in
      elim (push_cases l b) [
        | inl (q, _) ↦ rw q (deref_join a l _ x ih)
        | inr (inl (q, _)) ↦ rw q (
            deref_join a (record { price = p; orders = n ∷ [] }) (l ∷ b)
              (order_at_snoc a [] (unfold order_at in refl) e) h)
        | inr (inr (q, same)) ↦ rw q (
            deref_join a (record { price = p; orders = l.orders ++ n ∷ [] }) b
              (order_at_snoc a l.orders x e) y)
      ]

  other_addr : (m : Node F) → (m.addr == n.addr) ≡ false → (n.addr == m.addr) ≡ false
  other_addr m h = ground arith

  -- The new node's address is that of no node of the list.
  Away-push :
      (ns : List (Node F)) (b : Book F)
      → order_at n.addr ns ≡ none
      → Away ns b
      → Away ns (push_back before p n b)
  Away-push [] b h w = tt
  Away-push (m ∷ ns) b h (w, ws) =
      let (x, y) = order_at_cons n.addr m ns h in
      (deref-push_back m.addr b w (other_addr m x), Away-push ns b y ws)

  apart_snoc :
      (ns : List (Node F)) → order_at n.addr ns ≡ none → LevelApart ns → LevelApart (ns ++ n ∷ [])
  unfolding order_at
  apart_snoc [] h w = (refl, tt)
  apart_snoc (m ∷ ns) h (w, ws) =
      let (x, y) = order_at_cons n.addr m ns h in
      (order_at_snoc m.addr ns w (other_addr m x), apart_snoc ns y ws)

  Away-snoc :
      (ns : List (Node F)) (b : Book F) → Away ns b → deref n.addr b ≡ none → Away (ns ++ n ∷ []) b
  Away-snoc [] b w h = (h, tt)
  Away-snoc (m ∷ ns) b (w, ws) h = (w, Away-snoc ns b ws h)

  pub push_back-BookApart :
      (b : Book F) → deref n.addr b ≡ none → BookApart b → BookApart (push_back before p n b)
  unfolding push_back order_at deref
  push_back-BookApart [] h w = ((refl, tt), (refl, tt), tt)
  push_back-BookApart (l ∷ b) h (wl, wa, wb) =
      let (x, y) = deref_cons n.addr l b h in
      elim (push_cases l b) [
        | inl (q, _) ↦ rw q (wl, Away-push l.orders b x wa, push_back-BookApart b y wb)
        | inr (inl (q, _)) ↦ rw q ((refl, tt), (h, tt), (wl, wa, wb))
        | inr (inr (q, same)) ↦ rw q (apart_snoc l.orders x wl, Away-snoc l.orders b wa y, wb)
      ]
