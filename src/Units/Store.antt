-- ===== src/Units/Store.antt =====
-- server/src/ClientStore.cpp: the clients in the order they came, each a shared object behind an address, with the socket
-- that it was made for. The tasks of its pools are the steps here; the locks are left out.
use fix4_2_protocol.Base.{
  ℕ, Str, str_eq, false, List, [], ◌∷◌, ◌++◌, ◌==◌, if◌then◌else◌, Option, none, some, ◌≡◌, ◌≢◌,
  refl, sym, subst, inl, inr, Bool-cases, arith,
}
use fix4_2_protocol.OrderBook.{Outcome, returned, thrown, undefined}
use fix4_2_protocol.Units.{UserSession}

pub record Entry : Type 0 where
  pub address : ℕ
  pub socket : ℕ
  pub session : UserSession

-- A client that has just been made.
abbrev pub new_session : UserSession
new_session = record {
  client = record { logged_in = false; user_id = []; should_dc = false; seq_num = 0 };
  info = record { elapsing = 1; test_request = false; test_value = none; since = 0 };
}

-- `newClientSocket`: the object comes at a free address.
unfoldable pub new_client_socket : ℕ → ℕ → List Entry → List Entry
new_client_socket address socket cs =
    cs ++ record { address = address; socket = socket; session = new_session } ∷ []

-- The callback of HeartBeatHandler for a new client.
unfoldable pub on_new_client : ℕ → UserSession → UserSession
on_new_client now s = record s { info = record s.info { since = now } }

-- `findClient` of a socket, and of a user.
unfoldable pub find_socket : ℕ → List Entry → Option Entry
find_socket socket [] = none
find_socket socket (c ∷ cs) = if socket == c.socket then some c else find_socket socket cs

unfoldable pub find_user : Str → List Entry → Option Entry
find_user id [] = none
find_user id (c ∷ cs) = if str_eq id c.session.client.user_id then some c else find_user id cs

-- The task of `removeClient`: `erase` of the end of a vector is undefined.
unfoldable pub remove_client : ℕ → List Entry → Outcome (List Entry)
remove_client a [] = undefined
remove_client a (c ∷ cs) =
    let rest = remove_client a cs in
    if a == c.address then returned cs else elim rest [
      | returned cs' ↦ returned (c ∷ cs')
      | thrown m ↦ thrown m
      | undefined ↦ undefined
    ]

-- The tasks in their order.
unfoldable pub remove_all : List ℕ → List Entry → Outcome (List Entry)
unfolding remove_client
remove_all [] cs = returned cs
remove_all (a ∷ as') cs = elim (remove_client a cs) [
  | returned cs' ↦ remove_all as' cs'
  | thrown m ↦ thrown m
  | undefined ↦ undefined
]

-- No entry has the address.
abbrev pub Without : ℕ → List Entry → Type 0
Without a [] = Unit {0}
Without a (c ∷ cs) = ((a == c.address) ≡ false) × Without a cs

abbrev pub AreDistinct : List Entry → Type 0
AreDistinct [] = Unit {0}
AreDistinct (c ∷ cs) = Without c.address cs × AreDistinct cs

remove_client-Without : (a : ℕ) (cs : List Entry) → Without a cs → remove_client a cs ≡ undefined
unfolding remove_client
remove_client-Without a [] h = refl
remove_client-Without a (c ∷ cs) (h, k) = ground (arith, remove_client-Without a cs k)

never : (a : ℕ) (m : Str) (cs : List Entry) → remove_client a cs ≢ thrown m
unfolding remove_client
never a m [] h = ground arith
never a m (c ∷ cs) h = ground (arith, never a m cs)

-- What is left where a client has been removed.
removed_rest :
    (a : ℕ) (c : Entry) (cs cs' : List Entry)
    → (a == c.address) ≡ false
    → remove_client a (c ∷ cs) ≡ returned cs'
    → (rest : List Entry) × (remove_client a cs ≡ returned rest) × (cs' ≡ c ∷ rest)
unfolding remove_client
removed_rest a c cs cs' other h = left (remove_client a cs) refl
  where
    left :
        (o : Outcome (List Entry))
        → remove_client a cs ≡ o
        → (rest : List Entry) × (remove_client a cs ≡ returned rest) × (cs' ≡ c ∷ rest)
    left (returned rest) e = (rest, e, ground arith)
    left (thrown m) e = absurd (ground arith)
    left undefined e = absurd (ground arith)

removed-Without :
    (a : ℕ) (cs cs' : List Entry)
    → AreDistinct cs
    → remove_client a cs ≡ returned cs'
    → Without a cs'
unfolding remove_client
removed-Without a [] cs' d h = absurd (ground arith)
removed-Without a (c ∷ cs) cs' (w, d) h = elim (Bool-cases (a == c.address)) [
  | inl same ↦
      let at : c.address ≡ a = ground arith in
      let left : cs ≡ cs' = ground arith in
      subst (λ k. Without k cs') at (subst (Without c.address) left w)
  | inr other ↦
      let (rest, e, f) = removed_rest a c cs cs' other h in
      subst (Without a) (sym f) (other, removed-Without a cs rest d e)
]

-- A client that two tasks remove: the second erases the end of the list.
pub remove_all_twice :
    (a : ℕ) (as' : List ℕ) (cs : List Entry)
    → AreDistinct cs
    → remove_all (a ∷ a ∷ as') cs ≡ undefined
unfolding remove_all
remove_all_twice a as' cs d = removed (remove_client a cs) refl
  where
    removed :
        (o : Outcome (List Entry))
        → remove_client a cs ≡ o
        → remove_all (a ∷ a ∷ as') cs ≡ undefined
    removed (returned cs') e =
        ground (arith, remove_client-Without a cs' (removed-Without a cs cs' d e))
    removed (thrown m) e = absurd (never a m cs e)
    removed undefined e = ground arith
