-- ===== src/OrderBook/Index/Sweep.antt =====
-- Matching keeps the index over the whole book.
use fix4_2_protocol.Base.{Str, str_eq_iff, Bool, ◌≡◌, ◌≢◌, inl, refl, none, [], ◌∷◌, ◌++◌, arith}
use fix4_2_protocol.Core.Enum.{Side}
use fix4_2_protocol.Core.Float.{Float}
use fix4_2_protocol.OrderBook.{Freed, Unchanged, Book, OrderIdMap}
use fix4_2_protocol.OrderBook.Match.{Progress, Ending}
use fix4_2_protocol.OrderBook.Match.Run.{BookRun, end, break, block, finish, descend}
use fix4_2_protocol.OrderBook.Store.{find, find-append}
use fix4_2_protocol.OrderBook.Index.{level_index, index, Distinct}
use fix4_2_protocol.OrderBook.Index.Run.{Follows, level-Follows, level-Distinct, same}

module _ {F : Type 0} where
  -- No key of e is one of f.
  abbrev pub Disjoint : OrderIdMap F → OrderIdMap F → Type 0
  Disjoint e f = (k : Str) → find k e ≢ none → find k f ≡ none

  abbrev pub Parts : OrderIdMap F → OrderIdMap F → Type 0
  Parts e f = Distinct e × Distinct f × Disjoint e f

  pub split-Distinct : (e f : OrderIdMap F) → Distinct (e ++ f) → Parts e f
  unfolding find
  split-Distinct [] f h = (tt, h, λ k some'. absurd (some' refl))
  split-Distinct ((i, v) ∷ e) f (once, h) =
      let (he, hf, apart) = split-Distinct e f h in
      (
        (ground (arith, find-append i e f), he),
        hf,
        λ k present. ground (arith, apart k, find-append i e f, str_eq_iff i k),
      )

  pub join-Distinct : (e f : OrderIdMap F) → Parts e f → Distinct (e ++ f)
  unfolding find
  join-Distinct [] f (he, hf, apart) = hf
  join-Distinct ((i, v) ∷ e) f ((once, he), hf, apart) = (
    ground (arith, find-append i e f, apart i, str_eq_iff i i),
    join-Distinct e f (he, hf, λ k present. apart k (λ gone. present (ground arith))),
  )

  append-Follows :
      (k : Str) (m e n f o e' f' : OrderIdMap F)
      → Disjoint e e'
      → Follows k m e n f
      → Follows k n e' o f'
      → Follows k m (e ++ e') o (f ++ f')
  append-Follows k m e n f o e' f' apart h h' =
      ground (arith, find-append k e e', find-append k f f', apart k)

module _ {F : Type 0} ⦃fl : Float F⦄ ⦃fr : Freed F⦄ (still : Unchanged fr) where
  pub book-Follows :
      (k : Str) {cmp : F → F → Bool} {limit : F} {side : Side} {b b' : Book F} {s t : Progress F}
      {e : Ending}
      → BookRun cmp limit side b s t b' e
      → Distinct (index b)
      → Follows k s.ids (index b) t.ids (index b')
  book-Follows k end h = inl (refl, refl)
  book-Follows k (break beyond) h = inl (refl, refl)
  book-Follows k (block within shut) h = inl (refl, refl)
  book-Follows k (finish {l = l} {b = b} within op r) h =
      let (hl, hb, apart) = split-Distinct (level_index l.price l.orders) (index b) h in
      append-Follows k _ _ _ _ _ _ _ apart (level-Follows still k r hl) (same k _ _)
  book-Follows k (descend {l = l} {b = b} within op r q) h =
      let (hl, hb, apart) = split-Distinct (level_index l.price l.orders) (index b) h in
      append-Follows k _ _ _ _ _ _ _ apart (level-Follows still k r hl) (book-Follows k q hb)

  still-Disjoint :
      (e e' f f' m n o p : OrderIdMap F)
      → Disjoint e e'
      → ((k : Str) → Follows k m e n f)
      → ((k : Str) → Follows k o e' p f')
      → Disjoint f f'
  still-Disjoint e e' f f' m n o p apart h h' k present = ground (arith, apart k, h k, h' k)

  pub book-Distinct :
      {cmp : F → F → Bool} {limit : F} {side : Side} {b b' : Book F} {s t : Progress F} {e : Ending}
      → BookRun cmp limit side b s t b' e
      → Distinct (index b)
      → Distinct (index b')
  book-Distinct end h = h
  book-Distinct (break beyond) h = h
  book-Distinct (block within shut) h = h
  book-Distinct (finish {l = l} {b = b} within op r) h =
      let (hl, hb, apart) = split-Distinct (level_index l.price l.orders) (index b) h in
      join-Distinct _ _ (
        level-Distinct still r hl,
        hb,
        still-Disjoint _ _ _ _ _ _ [] [] apart (λ k. level-Follows still k r hl)
            (λ k. same k [] (index b)),
      )
  book-Distinct (descend {l = l} {b = b} within op r q) h =
      let (hl, hb, apart) = split-Distinct (level_index l.price l.orders) (index b) h in
      join-Distinct _ _ (
        level-Distinct still r hl,
        book-Distinct q hb,
        still-Disjoint _ _ _ _ _ _ _ _ apart (λ k. level-Follows still k r hl)
            (λ k. book-Follows k q hb),
      )
